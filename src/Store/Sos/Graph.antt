-- ===== src/Store/Sos/Graph.antt =====
-- store/sos.py: `relate`, `related`, `tag`, `untag`, `get_tags` and `find_by_tag`. Where a query has
-- no ORDER BY its rows come here in the order of the model's table.
use data_py_os.Base.{Bool, not, ◌&&◌, ◌||◌, Option, none, some, List, [], ◌∷◌, ◌++◌, if◌then◌else◌}
use data_py_os.Base.Eq.{◌==◌, text_eq, Text, chars}
use data_py_os.Base.Order.{sort_texts}
use data_py_os.Base.Result.{ok, err}
use data_py_os.Base.Dict.{lookup}
use data_py_os.Base.Lists.{elem}
use data_py_os.Store.Paths.{lower, strip}
use data_py_os.Store.Sos.Types.{SObject, Link, Sos, file_not_found}
use data_py_os.Store.Sos.Objects.{get, has_tag, add_link}
use data_py_os.Store.Sos.Aliases.{resolve}
use data_py_os.Store.Sos.Files.{Action}
use data_py_os.Store.Sos.Listing.{like}

-- `relate` once both paths are resolved
unfoldable pub relate_found : Option Text → Option Text → Text → Sos → Sos
relate_found (some src) (some dst) relation s = record s {
  links = add_link (record { src = src; dst = dst; relation = relation }) s.links;
}
relate_found _ _ relation s = s

unfoldable pub relate : Text → Text → Text → Sos → Sos
unfolding relate_found
relate src_path dst_path relation s =
    let (src, s1) = resolve src_path s in
    let (dst, s2) = resolve dst_path s1 in relate_found src dst relation s2

-- no relation, or the empty one, selects every row
abbrev pub selects : Text → Text → Link → Bool
selects oid relation l = l.src == oid && (relation == [] || l.relation == relation)

abbrev pub rows_of : Text → Text → List Link → List Link
rows_of oid relation [] = []
rows_of oid relation (l ∷ rows) =
    if selects oid relation l then l ∷ rows_of oid relation rows else rows_of oid relation rows

abbrev pub or_oid : Option Text → Text → Text
or_oid none oid = oid
or_oid (some path) oid = path

-- obj.meta.get("path", oid)
abbrev pub path_in : Text → SObject → Text
path_in oid obj = or_oid (lookup (chars "path") obj.meta) oid

abbrev pub with_name : Text → Text → Option SObject → List (Text × Text) → List (Text × Text)
with_name oid relation none rest = rest
with_name oid relation (some obj) rest = (path_in oid obj, relation) ∷ rest

unfoldable pub named : List Link → Sos → List (Text × Text) × Sos
named [] s = ([], s)
named (l ∷ rows) s =
    let (obj, s1) = get l.dst s in
    let (rest, s2) = named rows s1 in (with_name l.dst l.relation obj rest, s2)

unfoldable pub related_found : Option Text → Text → Sos → List (Text × Text) × Sos
unfolding named
related_found none relation s = ([], s)
related_found (some oid) relation s = named (rows_of oid relation s.links) s

-- A relation of None is the empty text, which the source tests in the same way.
unfoldable pub related : Text → Text → Sos → List (Text × Text) × Sos
unfolding related_found
related path relation s = let (oid, s') = resolve path s in related_found oid relation s'

-- t.strip().lower()
unfoldable pub clean : Text → Text
clean t = lower (strip t)

-- The loop of `tag`: the tags that were new, and the table.
unfoldable pub tag_all : Text → List Text → List (Text × Text) → List Text × List (Text × Text)
tag_all oid [] rows = ([], rows)
tag_all oid (t ∷ ts) rows =
    let c = clean t in
    let fresh = not (c == []) && not (has_tag c oid rows) in
    let (added, rows') = tag_all oid ts (if fresh then (c, oid) ∷ rows else rows) in
    (if fresh then c ∷ added else added, rows')

unfoldable pub tag_found : Option Text → List Text → Action (List Text)
tag_found none tags s = (err file_not_found, s)
tag_found (some oid) tags s =
    let (added, rows) = tag_all oid tags s.tag_index in (ok added, record s { tag_index = rows })

unfoldable pub tag : Text → List Text → Action (List Text)
unfolding tag_found
tag path tags s = let (oid, s') = resolve path s in tag_found oid tags s'

-- DELETE FROM tag_index WHERE tag=? AND oid=?
abbrev pub drop_tag : Text → Text → List (Text × Text) → List (Text × Text)
drop_tag tag oid [] = []
drop_tag tag oid ((t, o) ∷ rows) =
    if tag == t && oid == o then drop_tag tag oid rows else (t, o) ∷ drop_tag tag oid rows

-- The loop of `untag`: the tags that were there, and the table.
unfoldable pub untag_all : Text → List Text → List (Text × Text) → List Text × List (Text × Text)
untag_all oid [] rows = ([], rows)
untag_all oid (t ∷ ts) rows =
    let c = clean t in
    let (removed, rows') = untag_all oid ts (drop_tag c oid rows) in
    (if has_tag c oid rows then c ∷ removed else removed, rows')

unfoldable pub untag_found : Option Text → List Text → Sos → List Text × Sos
untag_found none tags s = ([], s)
untag_found (some oid) tags s =
    let (removed, rows) = untag_all oid tags s.tag_index in (removed, record s { tag_index = rows })

unfoldable pub untag : Text → List Text → Sos → List Text × Sos
unfolding untag_found
untag path tags s = let (oid, s') = resolve path s in untag_found oid tags s'

abbrev pub tags_of : Text → List (Text × Text) → List Text
tags_of oid [] = []
tags_of oid ((t, o) ∷ rows) = if oid == o then t ∷ tags_of oid rows else tags_of oid rows

abbrev pub tags_found : Option Text → List (Text × Text) → List Text
tags_found none rows = []
tags_found (some oid) rows = sort_texts (tags_of oid rows)

unfoldable pub get_tags : Text → Sos → List Text × Sos
get_tags path s = let (oid, s') = resolve path s in (tags_found oid s'.tag_index, s')

-- SELECT DISTINCT oid of the rows whose tag passes the test
abbrev pub oids_where : (Text → Bool) → List (Text × Text) → List Text
oids_where test [] = []
oids_where test ((t, o) ∷ rows) =
    let rest = oids_where test rows in if test t && not (elem o rest) then o ∷ rest else rest

abbrev pub with_path : Text → Option SObject → List Text → List Text
with_path oid none rest = rest
with_path oid (some obj) rest = path_in oid obj ∷ rest

unfoldable pub paths_of : List Text → Sos → List Text × Sos
paths_of [] s = ([], s)
paths_of (oid ∷ oids) s =
    let (obj, s1) = get oid s in let (rest, s2) = paths_of oids s1 in (with_path oid obj rest, s2)

unfoldable pub find_by_tag : Text → Bool → Sos → List Text × Sos
unfolding paths_of
find_by_tag tag fuzzy s =
    let test = λ (t : Text). if fuzzy then like (37 ∷ tag ++ 37 ∷ []) t else tag == t in
    paths_of (oids_where test s.tag_index) s
