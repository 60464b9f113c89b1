-- ===== src/Store/Sos/Tagging.antt =====
-- store/sos.py: what `tag` and `untag` do to the table of tags.
use data_py_os.Base.{
  ◌≡◌, refl, ◌∙◌, false, not, ◌&&◌, ◌||◌, some, List, [], ◌∷◌, map, arith, Bool-cases, inl, inr,
}
use data_py_os.Base.Eq.{◌==◌, text_eq, text_beq_iff, Text}
use data_py_os.Base.Result.{ok}
use data_py_os.Base.Lists.{elem}
use data_py_os.Store.Sos.Types.{Host, Sos}
use data_py_os.Store.Sos.Objects.{has_tag}
use data_py_os.Store.Sos.Coherent.{Coherent, target, resolve-Reads}
use data_py_os.Store.Sos.Graph.{
  clean, tag_all, tag, tag_found, drop_tag, untag_all, untag, untag_found,
}

has_tag-drop_tag :
    (t o c oid : Text) (rows : List (Text × Text))
    → has_tag t o (drop_tag c oid rows) ≡ (has_tag t o rows && not (t == c && o == oid))
has_tag-drop_tag t o c oid [] = refl
has_tag-drop_tag t o c oid ((u, p) ∷ rows) = ground (
  arith,
  text_beq_iff t u,
  text_beq_iff o p,
  text_beq_iff c u,
  text_beq_iff oid p,
  text_beq_iff t c,
  text_beq_iff o oid,
  has_tag-drop_tag t o c oid rows,
)

untag_all_lem :
    (t o oid : Text) (ts : List Text) (rows : List (Text × Text))
    → has_tag t o (untag_all oid ts rows).1
      ≡ (has_tag t o rows && not (elem t (map clean ts) && o == oid))
unfolding untag_all
untag_all_lem t o oid [] rows = ground arith
untag_all_lem t o oid (u ∷ ts) rows = ground (
  arith,
  has_tag-drop_tag t o (clean u) oid rows,
  untag_all_lem t o oid ts (drop_tag (clean u) oid rows),
)

tag_all_lem :
    (t o oid : Text) (ts : List Text) (rows : List (Text × Text))
    → (t == []) ≡ false
    → has_tag t o (tag_all oid ts rows).1
      ≡ (has_tag t o rows || (elem t (map clean ts) && o == oid))
unfolding tag_all
tag_all_lem t o oid [] rows full = ground arith
tag_all_lem t o oid (u ∷ ts) rows full =
    let c = clean u in
    elim (Bool-cases (not (c == []) && not (has_tag c oid rows))) [
      | inl fresh ↦ rw fresh (ground (arith, tag_all_lem t o oid ts ((c, oid) ∷ rows) full))
      | inr stale ↦ rw stale (
          ground (
            arith,
            stale,
            full,
            text_beq_iff t c,
            text_beq_iff o oid,
            tag_all_lem t o oid ts rows full,
          ))
    ]

module _ ⦃h : Host⦄ where
  -- In a coherent store, tagging a path that stands for an object succeeds, and afterwards an object has a tag exactly if
  -- it had it, or it is that object and the tag is one of those given, each stripped and in lower
  -- case. This is for tags that are not empty.
  pub tag_lem :
      (path : Text) (tags : List Text) (t o oid : Text) (s : Sos)
      → Coherent s
      → target path s ≡ some oid
      → (t == []) ≡ false
      → ((tag path tags s).0 ≡ ok (tag_all oid tags s.tag_index).0)
        × (has_tag t o (tag path tags s).1.tag_index
            ≡ (has_tag t o s.tag_index || (elem t (map clean tags) && o == oid)))
  unfolding tag tag_found
  tag_lem path tags t o oid s k at full =
      let (answer, r) = resolve-Reads path s k in
      rw (answer ∙ at, r.tables.tag_index) (refl, tag_all_lem t o oid tags s.tag_index full)

  -- In a coherent store, untagging a path that stands for an object leaves an object a tag exactly if it had it, and is
  -- not that object or the tag is none of those given, each stripped and in lower case.
  pub untag_lem :
      (path : Text) (tags : List Text) (t o oid : Text) (s : Sos)
      → Coherent s
      → target path s ≡ some oid
      → has_tag t o (untag path tags s).1.tag_index
        ≡ (has_tag t o s.tag_index && not (elem t (map clean tags) && o == oid))
  unfolding untag untag_found
  untag_lem path tags t o oid s k at =
      let (answer, r) = resolve-Reads path s k in
      rw (answer ∙ at, r.tables.tag_index) (untag_all_lem t o oid tags s.tag_index)
