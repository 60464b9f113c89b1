-- ===== src/Store/Sos/Aliases.antt =====
-- store/sos.py: the paths: `resolve`, `alias`, `unalias`, `exists`.
use data_py_os.Base.{Bool, Option, none, some, is_some}
use data_py_os.Base.Eq.{text_eq, Text}
use data_py_os.Base.Dict.{lookup, insert, erase}
use data_py_os.Store.Lru
use data_py_os.Store.Lru.{LruDict}
use data_py_os.Store.Sos.Types.{Alias, Sos}

unfoldable pub look_up : Text → Option Alias → Sos → Option Text × Sos
look_up path none s = (none, s)
look_up path (some row) s =
    (some row.oid, record s { path_cache = Lru.set path row.oid s.path_cache })

unfoldable pub find_path : Text → Option Text × LruDict Text Text → Sos → Option Text × Sos
unfolding look_up
find_path path (some oid, cache) s = (some oid, record s { path_cache = cache })
find_path path (none, cache) s =
    look_up path (lookup path s.aliases) (record s { path_cache = cache })

unfoldable pub resolve : Text → Sos → Option Text × Sos
unfolding find_path
resolve path s = find_path path (Lru.get path s.path_cache) s

unfoldable pub alias : Text → Text → Bool → Sos → Sos
alias path oid is_dir s = record s {
  aliases = insert path (record { oid = oid; is_dir = is_dir }) s.aliases;
  path_cache = Lru.set path oid s.path_cache;
}

unfoldable pub unalias : Text → Sos → Sos
unalias path s = record s {
  aliases = erase path s.aliases;
  path_cache = Lru.invalidate path s.path_cache;
}

unfoldable pub exists : Text → Sos → Bool × Sos
exists path s = let (oid, s') = resolve path s in (is_some oid, s')
