-- ===== src/Net/Crdt/Stamps.antt =====
-- net/crdt.py: the order of registers by time and node is a strict order.
use data_py_os.Base.{◌≡◌, refl, true, false, [], ◌∷◌, arith}
use data_py_os.Base.Eq.{Text}
use data_py_os.Base.Order.{text_ltb}
use data_py_os.Net.Crdt.{LwwRegister, wins}

text_ltb_irrefl : (s : Text) → text_ltb s s ≡ false
unfolding text_ltb
text_ltb_irrefl [] = refl
text_ltb_irrefl (a ∷ s) = ground (arith, text_ltb_irrefl s)

text_ltb_trans : (s t u : Text) → text_ltb s t ≡ true → text_ltb t u ≡ true → text_ltb s u ≡ true
unfolding text_ltb
text_ltb_trans s t [] e e' = ground (arith, e')
text_ltb_trans s [] (c ∷ u) e e' = ground (arith, e)
text_ltb_trans [] (b ∷ t) (c ∷ u) e e' = refl
text_ltb_trans (a ∷ s) (b ∷ t) (c ∷ u) e e' = ground (arith, text_ltb_trans s t u)

text_ltb_antisym : (s t : Text) → text_ltb s t ≡ false → text_ltb t s ≡ false → s ≡ t
unfolding text_ltb
text_ltb_antisym [] [] e e' = refl
text_ltb_antisym (a ∷ s) [] e e' = ground (arith, e')
text_ltb_antisym [] (b ∷ t) e e' = ground (arith, e)
text_ltb_antisym (a ∷ s) (b ∷ t) e e' = ground (arith, text_ltb_antisym s t)

pub wins_irrefl : (r : LwwRegister) → wins r r ≡ false
unfolding wins
wins_irrefl r = ground (arith, text_ltb_irrefl r.node_id)

pub wins_trans : (a b c : LwwRegister) → wins a b ≡ true → wins b c ≡ true → wins a c ≡ true
unfolding wins
wins_trans a b c e e' = ground (arith, text_ltb_trans a.node_id b.node_id c.node_id)

-- Registers of which neither wins have the same time and node.
pub wins_antisym :
    (a b : LwwRegister)
    → wins a b ≡ false
    → wins b a ≡ false
    → (a.ts ≡ b.ts) × (a.node_id ≡ b.node_id)
unfolding wins
wins_antisym a b e e' =
    let same : a.ts ≡ b.ts = ground (arith, e, e') in
    (
      same,
      text_ltb_antisym a.node_id b.node_id (ground (arith, e, same)) (ground (arith, e', same)),
    )
