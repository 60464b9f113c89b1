-- ===== src/Kernel/Namespaces/Tests.antt =====
-- kernel/namespaces.py: runs over a small store, and the theorems at concrete inputs.
use data_py_os.Base.{◌≡◌, refl, false, [], ◌∷◌}
use data_py_os.Base.Eq.{chars, text_beq}
use data_py_os.Base.Order.{text_ltb}
use data_py_os.Base.Result.{ok, err}
use data_py_os.Store.Paths.{starts_with}
use data_py_os.Store.Sos.Types.{Host, Sos, init, recursion_error}
use data_py_os.Store.Sos.Aliases.{alias}
use data_py_os.Store.Sos.Listing as Sos
use data_py_os.Store.Sos.Coherent.{Coherent, Reads}
use data_py_os.Store.Sos.Storing.{alias-Coherent}
use data_py_os.Store.Sos.Extending.{init-Sound}
use data_py_os.Kernel.Namespaces.{
  before, replace, Namespace, bind, map_path, map_dir, resolve, plain_resolve, patched_resolve,
  listdir,
}
use data_py_os.Kernel.Namespaces.Resolving.{pick, search_order, resolve_lem}
use data_py_os.Kernel.Namespaces.Patched.{patched_resolve_raises}

instance abbrev plain : Host
plain = record { hexdigest = λ b. b; encode = λ t. t; decode = λ b. b }

abbrev files : Sos
files = alias (chars "/h/y") (chars "2") false (alias (chars "/r/x") (chars "1") false init)

files-Coherent : Coherent files
files-Coherent =
    alias-Coherent (chars "/h/y") (chars "2") false (alias (chars "/r/x") (chars "1") false init)
      (alias-Coherent (chars "/r/x") (chars "1") false init init-Sound.coherent)

abbrev home : Namespace
home = bind (chars "/r") (chars "/h/") before []

home_order : search_order (chars "/h/x") home ≡ chars "/r/x" ∷ chars "/h/x" ∷ []
unfolding bind map_path text_beq starts_with
home_order = refl

resolve_lem_example :
    let (r, s') = resolve plain_resolve (chars "/h/x") home files in
    (r ≡ ok (pick (search_order (chars "/h/x") home) files)) × Reads files s'
resolve_lem_example = resolve_lem (chars "/h/x") home files files-Coherent

-- A binding of mode REPLACE for another directory empties every listing.
replace_hides :
    (listdir (chars "/h") [] files ≡ chars "y" ∷ [])
    × (listdir (chars "/h") (bind (chars "/r") (chars "/z") replace []) files ≡ [])
unfolding listdir bind map_dir text_beq text_ltb starts_with Sos.listdir alias
replace_hides = (refl, refl)

-- A path under a binding of mode REPLACE that has no source is still found where it was.
replace_falls_back :
    search_order (chars "/h/y") (bind (chars "/r") (chars "/h") replace [])
    ≡ chars "/r/y" ∷ chars "/h/y" ∷ []
unfolding bind map_path text_beq starts_with
replace_falls_back = refl

patched_resolve_raises_example :
    patched_resolve 1000 home (chars "/h/x") files ≡ (err recursion_error, files)
patched_resolve_raises_example = patched_resolve_raises 1000 home (chars "/h/x") files
