-- ===== src/Store/Branches/Restoring.antt =====
-- store/branches.py: what `checkout` does to the paths.
use data_py_os.Base.{
  ◌≡◌, refl, sym, ap, ◌∙◌, inl, inr, Bool, true, false, Option, none, some, [], ◌∷◌, if◌then◌else◌,
  is_some, Bool-cases,
}
use data_py_os.Base.Eq.{◌==◌, text_eq, text_beq_iff, Text}
use data_py_os.Base.Dict.{Dict, lookup, IsDict, insert-IsDict, lookup-insert}
use data_py_os.Store.Lru
use data_py_os.Store.Lru.{LruDict}
use data_py_os.Store.Lru.Order.{IsValid, entry}
use data_py_os.Store.Lru.Laws.{invalidate-IsValid, entry-invalidate}
use data_py_os.Store.Sos.Types.{Host, Alias, Sos}
use data_py_os.Store.Sos.Coherent.{Coherent, target, oid_in}
use data_py_os.Store.Branches.{put_tip, put_tips, forget_tips, restore_tips}

-- The OID that a path gets back: its tip if that is stored, else what it had.
abbrev pub tip_or : Option Text → Sos → Option Text → Option Text
tip_or none s old = old
tip_or (some oid) s old = if is_some (lookup oid s.objects) then some oid else old

put_tip-IsDict :
    (path oid : Text) (s : Sos) (aliases : Dict Text Alias)
    → IsDict aliases
    → IsDict (put_tip path oid s aliases)
put_tip-IsDict path oid s aliases u = elim (Bool-cases (is_some (lookup oid s.objects))) [
  | inl there ↦ rw there (insert-IsDict path (record { oid = oid; is_dir = false }) aliases u)
  | inr missing ↦ rw missing u
]

put_tips-IsDict :
    (tips : Dict Text Text) (s : Sos) (aliases : Dict Text Alias)
    → IsDict aliases
    → IsDict (put_tips tips s aliases)
unfolding put_tips
put_tips-IsDict [] s aliases u = u
put_tips-IsDict ((path, oid) ∷ tips) s aliases u =
    put_tips-IsDict tips s (put_tip path oid s aliases) (put_tip-IsDict path oid s aliases u)

put_tip_lem :
    (p path oid : Text) (s : Sos) (aliases : Dict Text Alias)
    → oid_in (lookup p (put_tip path oid s aliases)) ≡ (
        if p == path
        then tip_or (some oid) s (oid_in (lookup p aliases))
        else oid_in (lookup p aliases))
put_tip_lem p path oid s aliases =
    let row : Alias = record { oid = oid; is_dir = false } in
    elim (Bool-cases (is_some (lookup oid s.objects))) [
      | inl there ↦ rw there (ap oid_in (lookup-insert p path row aliases) ∙ inside (p == path) row)
      | inr missing ↦ rw missing (same (p == path) (oid_in (lookup p aliases)))
    ]
  where
    inside :
        (b : Bool) (row : Alias)
        → oid_in (if b then some row else lookup p aliases)
          ≡ (if b then some row.oid else oid_in (lookup p aliases))
    inside true row = refl
    inside false row = refl

    same : (b : Bool) (o : Option Text) → o ≡ (if b then o else o)
    same true o = refl
    same false o = refl

put_tips_lem :
    (p : Text) (tips : Dict Text Text) (s : Sos) (aliases : Dict Text Alias)
    → IsDict tips
    → oid_in (lookup p (put_tips tips s aliases))
      ≡ tip_or (lookup p tips) s (oid_in (lookup p aliases))
unfolding put_tips
put_tips_lem p [] s aliases u = refl
put_tips_lem p ((path, oid) ∷ tips) s aliases u =
    let old = oid_in (lookup p aliases) in
    let at = put_tip_lem p path oid s aliases in
    put_tips_lem p tips s (put_tip path oid s aliases) u.1 ∙ (elim (Bool-cases (p == path)) [
      | inl same ↦
          let gone : lookup p tips ≡ none =
            ap (λ z. lookup z tips) ((text_beq_iff p path).0 same) ∙ u.0 in
          rw same (
            ap (λ z. tip_or z s (oid_in (lookup p (put_tip path oid s aliases)))) gone
            ∙ at
            ∙ ap (λ b. if b then tip_or (some oid) s old else old) same)
      | inr other ↦ rw other (
          ap (tip_or (lookup p tips) s)
            (at ∙ ap (λ b. if b then tip_or (some oid) s old else old) other))
    ])

-- What the second loop leaves: the cache without the tips, and the tables.
record Forgets (tips : Dict Text Text) (s t : Sos) : Type 0 where
  valid : IsValid t.path_cache
  entries :
      (p oid : Text)
      → entry p t.path_cache ≡ some oid
      → (entry p s.path_cache ≡ some oid) × (lookup p tips ≡ none)
  same : t ≡ record s { path_cache = t.path_cache }

forget_tips_lem :
    (tips : Dict Text Text) (s : Sos) → IsValid s.path_cache → Forgets tips s (forget_tips tips s)
unfolding forget_tips
forget_tips_lem [] s v = record { valid = v; entries = λ p oid e. (e, refl); same = refl }
forget_tips_lem ((path, oid) ∷ tips) s v =
    let s1 : Sos = record s { path_cache = Lru.invalidate path s.path_cache } in
    let rest = forget_tips_lem tips s1 (invalidate-IsValid path s.path_cache v) in
    record {
      valid = rest.valid;
      entries = λ p o e.
          let (here, none') = rest.entries p o e in
          let e' = sym (entry-invalidate p path s.path_cache v) ∙ here in
          elim (Bool-cases (p == path)) [
            | inl at ↦ absurd (cc (rw at at e'))
            | inr other ↦ (rw other at e', rw other none')
          ];
      same = rest.same;
    }

module _ ⦃h : Host⦄ where
  restore_tips-Coherent :
      (tips : Dict Text Text) (s : Sos) → IsDict tips → Coherent s → Coherent (restore_tips tips s)
  unfolding restore_tips
  restore_tips-Coherent tips s u k =
      let s1 : Sos = record s { aliases = put_tips tips s s.aliases } in
      let f = forget_tips_lem tips s1 k.path_cache in
      let t = forget_tips tips s1 in
      let u' : Sos = record s1 { path_cache = t.path_cache } in
      let c : Coherent u' = record {
        obj_cache = k.obj_cache;
        path_cache = f.valid;
        rows = k.rows;
        names = put_tips-IsDict tips s s.aliases k.names;
        cached = λ q o e.
            let (old, gone) = f.entries q o e in
            put_tips_lem q tips s s.aliases u
            ∙ ap (λ z. tip_or z s (target q s)) gone
            ∙ k.cached q o old;
        stored = k.stored;
        backed = k.backed;
      } in
      rw f.same c

  -- Restoring the tips of a branch in a coherent store keeps it coherent: each path among the tips whose object is stored stands for its tip again, and every
  -- other path stays as it is, those made since the branch was made too.
  pub restore_tips_lem :
      (tips : Dict Text Text) (p : Text) (s : Sos)
      → IsDict tips
      → Coherent s
      → let s' = restore_tips tips s in
        Coherent s'
        × (s'.objects ≡ s.objects)
        × (target p s' ≡ tip_or (lookup p tips) s (target p s))
  unfolding restore_tips
  restore_tips_lem tips p s u k =
      let s1 : Sos = record s { aliases = put_tips tips s s.aliases } in
      let f = forget_tips_lem tips s1 k.path_cache in
      (
        restore_tips-Coherent tips s u k,
        ap (λ (z : Sos). z.objects) f.same,
        ap (λ (z : Sos). target p z) f.same ∙ put_tips_lem p tips s s.aliases u,
      )
