-- ===== src/Connector/InboundInbox/DeadLetters.antt =====
-- The list of the dead letters has each of them once.
use clawdentity.Shared.{
  suc, ◌+◌, ◌≡◌, ◌≢◌, refl, sym, ap, ◌∙◌, subst, String, none, some, List, [], ◌∷◌, length, All,
  length-append, eq_iff, eq_refl, ◌==◌, Bool-cases, inl, inr, arith,
}
use clawdentity.Shared.Dict.{Dict, get, set, delete, IsDistinct, set_of_none}
use clawdentity.Connector.InboundInbox.Types.{DeadLetterRow}
use clawdentity.Connector.InboundInbox.Storage.{comes_after, insert_ordered, order_dead_letter}

module _ {ℓ} {V : Type ℓ} where
  delete_of_none : (m : Dict V) (k : String) → get m k ≡ none → delete m k ≡ m
  unfolding get delete
  delete_of_none [] k h = refl
  delete_of_none ((j, v) ∷ m) k h = elim (Bool-cases (j == k)) [
    | inl same ↦ absurd (cc (rw same at h))
    | inr differs ↦ rw differs (ap (λ l. (j, v) ∷ l) (delete_of_none m k (rw differs at h)))
  ]

  pub length-delete_of_some :
      (m : Dict V) (k : String) (v : V)
      → IsDistinct m
      → get m k ≡ some v
      → length (delete m k) + 1 ≡ length m
  unfolding get delete
  length-delete_of_some [] k v d h = absurd (cc (h))
  length-delete_of_some ((j, w) ∷ m) k v (fresh, d) h = elim (Bool-cases (j == k)) [
    | inl same ↦
        let gone : delete m k ≡ m =
          delete_of_none m k (subst (λ i. get m i ≡ none) ((eq_iff j k).0 same) fresh) in
        rw (same, gone) (omega arith)
    | inr differs ↦ rw differs (omega (arith, length-delete_of_some m k v d (rw differs at h)))
  ]

  pub length-set_of_none :
      (m : Dict V) (k : String) (v : V) → get m k ≡ none → length (set m k v) ≡ length m + 1
  length-set_of_none m k v h =
      rw (set_of_none m k v h) (omega (arith, length-append m ((k, v) ∷ [])))

  keys_apart : (m : Dict V) (k : String) → get m k ≡ none → All (λ e. e.0 ≢ k) m
  unfolding get
  keys_apart [] k h = tt
  keys_apart ((j, v) ∷ m) k h = elim (Bool-cases (j == k)) [
    | inl same ↦ absurd (cc (rw same at h))
    | inr differs ↦
        ((λ e. ground (arith, differs, eq_iff j k, e)), keys_apart m k (rw differs at h))
  ]

abbrev pub id_of : DeadLetterRow → String
id_of d = d.row.request_id

-- No id twice.
abbrev pub AreApart : List DeadLetterRow → Type 0
AreApart [] = Unit
AreApart (d ∷ ds) = All (λ e. id_of e ≢ id_of d) ds × AreApart ds

module _ (P : DeadLetterRow → Type 0) where
  insert-All :
      (d : DeadLetterRow) (ds : List DeadLetterRow) → P d → All P ds → All P (insert_ordered d ds)
  unfolding insert_ordered
  insert-All d [] p h = (p, tt)
  insert-All d (e ∷ es) p (q, h) = elim (Bool-cases (comes_after d e)) [
    | inl after ↦ rw after (q, insert-All d es p h)
    | inr before ↦ rw before (p, (q, h))
  ]

  pub order-All : (m : Dict DeadLetterRow) → All (λ e. P e.1) m → All P (order_dead_letter m)
  unfolding order_dead_letter
  order-All [] h = tt
  order-All ((k, d) ∷ m) (p, h) = insert-All d (order_dead_letter m) p (order-All m h)

  insert-All_back :
      (d : DeadLetterRow) (ds : List DeadLetterRow) → All P (insert_ordered d ds) → P d × All P ds
  unfolding insert_ordered
  insert-All_back d [] (p, h) = (p, tt)
  insert-All_back d (e ∷ es) h = elim (Bool-cases (comes_after d e)) [
    | inl after ↦ let (q, k) = rw after at h in let (p, r) = insert-All_back d es k in (p, (q, r))
    | inr before ↦ rw before at h
  ]

  -- What holds of all in the list holds of all in the table.
  pub order-All_back : (m : Dict DeadLetterRow) → All P (order_dead_letter m) → All (λ e. P e.1) m
  unfolding order_dead_letter
  order-All_back [] h = tt
  order-All_back ((k, d) ∷ m) h =
      let (p, r) = insert-All_back d (order_dead_letter m) h in (p, order-All_back m r)

insert-AreApart :
    (d : DeadLetterRow) (ds : List DeadLetterRow)
    → All (λ e. id_of e ≢ id_of d) ds
    → AreApart ds
    → AreApart (insert_ordered d ds)
unfolding insert_ordered
insert-AreApart d [] h a = (tt, tt)
insert-AreApart d (e ∷ es) (differs, h) (apart, a) = elim (Bool-cases (comes_after d e)) [
  | inl after ↦ rw after (
    insert-All (λ x. id_of x ≢ id_of e) d es (λ same. differs (sym same)) apart,
    insert-AreApart d es h a,
  )
  | inr before ↦ rw before ((differs, h), (apart, a))
]

length-insert :
    (d : DeadLetterRow) (ds : List DeadLetterRow) → length (insert_ordered d ds) ≡ suc (length ds)
unfolding insert_ordered
length-insert d [] = refl
length-insert d (e ∷ es) = elim (Bool-cases (comes_after d e)) [
  | inl after ↦ rw after (ap suc (length-insert d es))
  | inr before ↦ rw before refl
]

pub length-order : (m : Dict DeadLetterRow) → length (order_dead_letter m) ≡ length m
unfolding order_dead_letter
length-order [] = refl
length-order ((k, d) ∷ m) = omega (arith, length-insert d (order_dead_letter m), length-order m)

-- A row has its key, which the other ones have not.
ids_apart :
    (k : String) (d : DeadLetterRow) (m : Dict DeadLetterRow)
    → id_of d ≡ k
    → All (λ e. id_of e.1 ≡ e.0) m
    → All (λ e. e.0 ≢ k) m
    → All (λ e. id_of e.1 ≢ id_of d) m
ids_apart k d [] same keyed differs = tt
ids_apart k d ((j, e) ∷ m) same (q, keyed) (p, differs) =
    ((λ x. p (sym q ∙ x ∙ same)), ids_apart k d m same keyed differs)

pub order-AreApart :
    (m : Dict DeadLetterRow)
    → IsDistinct m
    → All (λ e. id_of e.1 ≡ e.0) m
    → AreApart (order_dead_letter m)
unfolding order_dead_letter
order-AreApart [] d keyed = tt
order-AreApart ((k, row) ∷ m) (fresh, d) (same, keyed) =
    insert-AreApart row (order_dead_letter m)
      (order-All (λ e. id_of e ≢ id_of row) m (ids_apart k row m same keyed (keys_apart m k fresh)))
      (order-AreApart m d keyed)

-- A key in front does not hide the rows behind it.
behind :
    (k : String) (d : DeadLetterRow) (m l : Dict DeadLetterRow)
    → get m k ≡ none
    → All (λ e. get m (id_of e.1) ≡ some e.1) l
    → All (λ e. get ((k, d) ∷ m) (id_of e.1) ≡ some e.1) l
unfolding get
behind k d m [] fresh h = tt
behind k d m ((j, e) ∷ l) fresh (p, h) = elim (Bool-cases (k == id_of e)) [
  | inl same ↦ absurd (cc (fresh, p, ap (get m) ((eq_iff k (id_of e)).0 same)))
  | inr differs ↦ (rw differs p, behind k d m l fresh h)
]

pub all_there :
    (m : Dict DeadLetterRow)
    → IsDistinct m
    → All (λ e. id_of e.1 ≡ e.0) m
    → All (λ e. get m (id_of e.1) ≡ some e.1) m
unfolding get
all_there [] d keyed = tt
all_there ((k, row) ∷ m) (fresh, d) (same, keyed) =
    (rw (same, eq_refl k) refl, behind k row m m fresh (all_there m d keyed))
