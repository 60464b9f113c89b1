-- ===== src/Net/Crdt/Converging.antt =====
-- net/crdt.py: the registers of replicas after merges, and the object store that follows them.
use data_py_os.Base.{
  ◌≡◌, ◌↔◌, refl, ap, ◌⊎◌, inl, inr, false, Option, none, some, List, [], ◌∷◌, arith, Bool-cases,
  leb,
}
use data_py_os.Base.Eq.{text_eq, text_beq_iff, Text}
use data_py_os.Base.Dict.{Dict, lookup, values, lookup-insert, IsDict}
use data_py_os.Base.Lists.{In, In-keep}
use data_py_os.Store.Sos.Aliases.{alias}
use data_py_os.Store.Sos.Coherent.{target}
use data_py_os.Net.Crdt.{
  LwwRegister, CrdtStore, wins, accept, apply, merge_register, merge_found, merge_all, export_delta,
}
use data_py_os.Net.Crdt.Stamps.{wins_irrefl}
use data_py_os.Net.Crdt.Merging.{Best, Best-mono, Best-unique, NoTies, WithAll, merge_all-Best}

-- Every register is filed under its path.
abbrev pub FiledAll : Dict Text LwwRegister → Type 0
FiledAll [] = Unit
FiledAll ((k, r) ∷ d) = (r.path ≡ k) × FiledAll d

-- No path twice, and every register under its own.
pub record IsValid (m : CrdtStore) : Type 0 where
  pub keys : IsDict m.registers
  pub filed : FiledAll m.registers

-- The register is the one that the store holds for its path.
abbrev pub Held : CrdtStore → LwwRegister → Type 0
Held m r = lookup r.path m.registers ≡ some r

own_path :
    (p : Text) (r : LwwRegister) (d : Dict Text LwwRegister)
    → FiledAll d
    → lookup p d ≡ some r
    → r.path ≡ p
own_path p r [] f e = absurd (cc e)
own_path p r ((k, q) ∷ d) f e = ground (arith, own_path p r d f.1, text_beq_iff p k)

Held-Best :
    (m : CrdtStore) (p : Text) (o : Option LwwRegister)
    → IsValid m
    → lookup p m.registers ≡ o
    → Best (Held m) p o
Held-Best m p none v e = λ q h at. cc (h, e, at)
Held-Best m p (some r) v e =
    let own = own_path p r m.registers v.filed e in
    (cc (own, e), own, λ q h at. let same : q ≡ r = cc (h, e, at) in rw same (wins_irrefl r))

-- Two stores whose registers, with those that each merges, are the same registers for all paths, and
-- among which no two different ones for a path have the same time and node, hold the same register
-- for every path afterwards, whatever the order and the repetitions of the merges.
pub merge_all_converges :
    (xs ys : List LwwRegister) (m n : CrdtStore) (p : Text)
    → IsValid m
    → IsValid n
    → ((r : LwwRegister) → WithAll (Held m) xs r ↔ WithAll (Held n) ys r)
    → NoTies (WithAll (Held m) xs)
    → lookup p (merge_all xs m).registers ≡ lookup p (merge_all ys n).registers
merge_all_converges xs ys m n p v w same ties =
    let o = lookup p (merge_all xs m).registers in
    let o' = lookup p (merge_all ys n).registers in
    let b = merge_all-Best (Held m) xs m (λ q. Held-Best m q (lookup q m.registers) v refl) p in
    let b' = merge_all-Best (Held n) ys n (λ q. Held-Best n q (lookup q n.registers) w refl) p in
    Best-unique (WithAll (Held m) xs) p o o' ties b (
      Best-mono (WithAll (Held n) ys) (WithAll (Held m) xs) p o' (λ r. (same r).1) (λ r. (same r).0)
        b')

In-of_values :
    (r : LwwRegister) (d : Dict Text LwwRegister)
    → IsDict d
    → FiledAll d
    → In r (values d)
    → lookup r.path d ≡ some r
In-of_values r [] u f h = elim h [ ]
In-of_values r ((k, q) ∷ d) u f h = elim h [
  | inl e ↦ ground (arith, ap (λ (x : LwwRegister). x.path) e, text_beq_iff r.path k)
  | inr h' ↦ ground (arith, In-of_values r d u.1 f.1 h', text_beq_iff r.path k)
]

In-values_of :
    (r : LwwRegister) (d : Dict Text LwwRegister) → lookup r.path d ≡ some r → In r (values d)
In-values_of r [] e = ground arith
In-values_of r ((k, q) ∷ d) e = ground (arith, In-values_of r d)

-- a full export has exactly the registers held
In-export_delta : (m : CrdtStore) (r : LwwRegister) → IsValid m → In r (export_delta 0 m) ↔ Held m r
unfolding export_delta
In-export_delta m r v =
    let kept = In-keep (λ (q : LwwRegister). leb 0 q.ts) r (values m.registers) in
    (
      λ h. In-of_values r m.registers v.keys v.filed (kept.0 h).0,
      λ h. kept.1 (In-values_of r m.registers h, ground arith),
    )

-- Two replicas that each merge the other's full export agree on every path, if no two different
-- registers for a path have the same time and node.
pub exchange_converges :
    (m n : CrdtStore) (p : Text)
    → IsValid m
    → IsValid n
    → NoTies (λ r. Held m r ⊎ Held n r)
    → lookup p (merge_all (export_delta 0 n) m).registers
      ≡ lookup p (merge_all (export_delta 0 m) n).registers
exchange_converges m n p v w ties =
    merge_all_converges (export_delta 0 n) (export_delta 0 m) m n p v w
      (λ r. (
        λ c. elim c [
          | inl mine ↦ inr ((In-export_delta m r v).1 mine)
          | inr theirs ↦ inl ((In-export_delta n r w).0 theirs)
        ],
        λ c. elim c [
          | inl theirs ↦ inr ((In-export_delta n r w).1 theirs)
          | inr mine ↦ inl ((In-export_delta m r v).0 mine)
        ],
      ))
      (λ a b ca cb.
        ties a b (elim ca [ inl h ↦ inl h | inr h ↦ inr ((In-export_delta n a w).0 h) ])
          (elim cb [ inl h ↦ inl h | inr h ↦ inr ((In-export_delta n b w).0 h) ]))

-- The object store follows the registers: what they name is what the paths stand for.
pub record Applied (m : CrdtStore) : Type 0 where
  pub follows :
      (p : Text) (r : LwwRegister) → lookup p m.registers ≡ some r → target p m.sos ≡ some r.oid

accept-Applied : (x : LwwRegister) (m : CrdtStore) → Applied m → Applied (accept x m).1
unfolding accept apply alias
accept-Applied x m a = record {
  follows = λ p r e. ground (
    arith,
    lookup-insert p x.path x m.registers,
    lookup-insert p x.path (record { oid = x.oid; is_dir = false }) m.sos.aliases,
    a.follows p r,
  );
}

found-Applied :
    (x : LwwRegister) (o : Option LwwRegister) (m : CrdtStore)
    → Applied m
    → Applied (merge_found x o m).1
unfolding merge_found
found-Applied x none m a = accept-Applied x m a
found-Applied x (some l) m a = elim (Bool-cases (wins l x)) [
  | inl won ↦ rw won (accept-Applied x m a)
  | inr lost ↦ rw lost a
]

-- If the paths stand for what the registers name, they do so after any merges.
pub merge_all-Applied :
    (xs : List LwwRegister) (m : CrdtStore) → Applied m → Applied (merge_all xs m)
unfolding merge_all merge_register
merge_all-Applied [] m a = a
merge_all-Applied (x ∷ xs) m a =
    merge_all-Applied xs (merge_register x m).1 (found-Applied x (lookup x.path m.registers) m a)
