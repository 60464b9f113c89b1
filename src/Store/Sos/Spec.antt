-- ===== src/Store/Sos/Spec.antt =====
-- store/sos.py: what the object store promises of its files, without objects, OIDs and caches: each
-- path has the bytes of a file or is no file, and the methods change that.
use data_py_os.Base.{ℕ, ◌≡◌, ◌≢◌, ◌⊎◌, false, Option, none, some, List, [], ◌∷◌, if◌then◌else◌}
use data_py_os.Base.Eq.{◌==◌, text_eq, Text, chars}
use data_py_os.Base.Result.{Result, ok, err}
use data_py_os.Base.Dict.{Dict}
use data_py_os.Store.Sos.Types.{
  Bytes, Host, Content, Error, to_bytes, file_not_found, is_a_directory,
}
use data_py_os.Store.Sos.Files.{Action, ◌>>◌, pure, read, write}
use data_py_os.Store.Sos.Listing.{remove, copy, move}

-- The bytes of each file.
abbrev pub View : Type 0
View = Text → Option Bytes

abbrev pub set : Text → Option Bytes → View → View
set path content fs p = if p == path then content else fs p

-- A call of a client.
pub data Call : Type 0 where
  put :
      (now : ℕ) (path : Text) (content : Content) (kind : Text) (meta : Dict Text Text)
      (tags : List Text)
      → Call
  look drop : (path : Text) → Call
  duplicate rename : (src dst : Text) → Call

abbrev pub no_files : View
no_files path = none

module _ ⦃h : Host⦄ where
  -- What a call does to the files.
  abbrev pub apply : Call → View → View
  apply (put now path content kind meta tags) fs = set path (some (to_bytes content)) fs
  apply (look path) fs = fs
  apply (drop path) fs = set path none fs
  apply (duplicate src dst) fs = set dst (fs src) fs
  apply (rename src dst) fs = set src none (set dst (fs src) fs)

  abbrev pub apply_all : List Call → View → View
  apply_all [] fs = fs
  apply_all (call ∷ calls) fs = apply_all calls (apply call fs)

  -- What a call runs; one level of `remove` is enough for a file.
  abbrev pub perform : Call → Action (Unit {0})
  perform (put now path content kind meta tags) s =
      (ok tt, (write now path content kind meta tags s).1)
  perform (look path) s = (ok tt, (read path s).1)
  perform (drop path) s = remove 1 path false s
  perform (duplicate src dst) s = copy src dst s
  perform (rename src dst) s = move src dst s

  abbrev pub perform_all : List Call → Action (Unit {0})
  perform_all [] = pure tt
  perform_all (call ∷ calls) = perform call >> perform_all calls

  -- What `read` answers for the bytes of a file, or for what is no file.
  abbrev pub Matches : Option Bytes → Result Error Text → Type 0
  Matches (some content) answer = answer ≡ ok (h.decode content)
  Matches none answer =
      (answer ≡ err file_not_found) ⊎ (answer ≡ err is_a_directory) ⊎ (answer ≡ ok (h.decode []))

-- The calls that a client makes: it writes files of the contents `Known` that are not empty and not of the kind of a
-- directory, and removes, copies and moves files.
module _ ⦃h : Host⦄ (Known : Bytes → Type 0) where
  abbrev pub Allowed : Call → View → Type 0
  Allowed (put now path content kind meta tags) fs =
      Known (to_bytes content) × (to_bytes content ≢ []) × ((kind == chars "dir") ≡ false)
  Allowed (look path) fs = Unit {0}
  Allowed (drop path) fs = (content : Bytes) × (fs path ≡ some content)
  Allowed (duplicate src dst) fs = (content : Bytes) × (fs src ≡ some content)
  Allowed (rename src dst) fs = (content : Bytes) × (fs src ≡ some content)

  abbrev pub AllAllowed : List Call → View → Type 0
  AllAllowed [] fs = Unit {0}
  AllAllowed (call ∷ calls) fs = Allowed call fs × AllAllowed calls (apply call fs)
