-- ===== src/Connector/InboundInbox/Listed.antt =====
-- Every due message is in the list of the due ones, if its limit leaves room.
use clawdentity.Shared.{
  ℕ, zero, suc, ◌≤◌, max, ◌≡◌, refl, ap, String, true, some, List, [], ◌∷◌, map, filter, filter-mem,
  length-filter-le, take, length, Memᴰ, ◌==◌, Bool-cases, inl, inr, arith,
}
use clawdentity.Shared.Dict.{Dict, get}
use clawdentity.Connector.InboundInbox.Types.{PendingRow, to_pending_item}
use clawdentity.Connector.InboundInbox.Storage.{Database}
use clawdentity.Connector.InboundInbox.Due.{
  is_due, is_due_after, insert_due, order_due, list_due_pending,
}

insert_due-self : (row : PendingRow) (rows : List PendingRow) → Memᴰ row (insert_due row rows)
unfolding insert_due
insert_due-self row [] = Memᴰ.head refl
insert_due-self row (other ∷ rows) = elim (Bool-cases (is_due_after row other)) [
  | inl after ↦ rw after (Memᴰ.tail (insert_due-self row rows))
  | inr before ↦ rw before (Memᴰ.head refl)
]

insert_due-mem :
    {a : PendingRow} (row : PendingRow) (rows : List PendingRow)
    → Memᴰ a rows
    → Memᴰ a (insert_due row rows)
unfolding insert_due
insert_due-mem row [] m = elim m [ ]
insert_due-mem row (other ∷ rows) (Memᴰ.head e) = elim (Bool-cases (is_due_after row other)) [
  | inl after ↦ rw after (Memᴰ.head e)
  | inr before ↦ rw before (Memᴰ.tail (Memᴰ.head e))
]
insert_due-mem row (other ∷ rows) (Memᴰ.tail m) = elim (Bool-cases (is_due_after row other)) [
  | inl after ↦ rw after (Memᴰ.tail (insert_due-mem row rows m))
  | inr before ↦ rw before (Memᴰ.tail (Memᴰ.tail m))
]

length-insert_due :
    (row : PendingRow) (rows : List PendingRow) → length (insert_due row rows) ≡ suc (length rows)
unfolding insert_due
length-insert_due row [] = refl
length-insert_due row (other ∷ rows) = elim (Bool-cases (is_due_after row other)) [
  | inl after ↦ rw after (ap suc (length-insert_due row rows))
  | inr before ↦ rw before refl
]

length-order_due : (rows : Dict PendingRow) → length (order_due rows) ≡ length rows
unfolding order_due
length-order_due [] = refl
length-order_due ((k, row) ∷ rows) =
    omega (arith, length-insert_due row (order_due rows), length-order_due rows)

order_due-mem :
    (rows : Dict PendingRow) (id : String) (row : PendingRow)
    → get rows id ≡ some row
    → Memᴰ row (order_due rows)
unfolding order_due get
order_due-mem [] id row h = absurd (cc (h))
order_due-mem ((k, r) ∷ rows) id row h = elim (Bool-cases (k == id)) [
  | inl same ↦ let found : r ≡ row = ground arith in rw found (insert_due-self row (order_due rows))
  | inr differs ↦ insert_due-mem r (order_due rows) (order_due-mem rows id row (rw differs at h))
]

take_all {ℓ} : {A : Type ℓ} (n : ℕ) (xs : List A) → length xs ≤ n → take n xs ≡ xs
take_all zero [] h = refl
take_all (suc n) [] h = refl
take_all zero (x ∷ xs) h = absurd (omega (arith, h))
take_all (suc n) (x ∷ xs) h = ap (λ l. x ∷ l) (take_all n xs (omega (arith, h)))

map-mem :
    {a : PendingRow} (rows : List PendingRow)
    → Memᴰ a rows
    → Memᴰ (to_pending_item a) (map to_pending_item rows)
map-mem [] m = elim m [ ]
map-mem (row ∷ rows) (Memᴰ.head e) = Memᴰ.head (ap to_pending_item e)
map-mem (row ∷ rows) (Memᴰ.tail m) = Memᴰ.tail (map-mem rows m)

pub listed :
    (now_at id : String) (limit : ℕ) (row : PendingRow) (db : Database)
    → get db.pending id ≡ some row
    → is_due now_at row ≡ true
    → length db.pending ≤ limit
    → Memᴰ (to_pending_item row) (list_due_pending now_at limit db)
unfolding list_due_pending
listed now_at id limit row db found due room =
    let rows = order_due db.pending in
    let all =
      take_all (max 1 limit) (filter (is_due now_at) rows)
        (omega (arith, room, length-order_due db.pending, length-filter-le (is_due now_at) rows)) in
    rw all (
      map-mem (filter (is_due now_at) rows)
        (filter-mem (is_due now_at) rows (order_due-mem db.pending id row found) due))
