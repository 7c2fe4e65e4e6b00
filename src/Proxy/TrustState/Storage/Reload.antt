-- ===== src/Proxy/TrustState/Storage/Reload.antt =====
-- What the loads make of stored values: maps without doubled keys, which a save and a load leave as
-- they are.
use mathlib.Core.List.{append_assoc, append-nil}
use clawdentity.Shared.{
  String, ◌≡◌, refl, sym, ap, ◌∙◌, subst, Option, none, some, List, [], ◌∷◌, ◌++◌, map, All,
}
use clawdentity.Shared.Dict.{
  Dict, set, IsDistinct, set_of_none, get_before_none, set-IsDistinct, All-set,
}
use clawdentity.Shared.Json.{Value, object, fields, entries, pairs-fields}
use clawdentity.Proxy.TrustState.Storage.{put_entry, normalize, normalize_object}

module _ {ℓ} {V : Type ℓ} (read : String → Value → Option (String × V)) where
  pub put_entry-IsDistinct :
      (e : Option (String × V)) (m : Dict V) → IsDistinct m → IsDistinct (put_entry e m)
  unfolding put_entry
  put_entry-IsDistinct none m d = d
  put_entry-IsDistinct (some (k, v)) m d = set-IsDistinct m k v d

  normalize-IsDistinct :
      (es : List (String × Value)) (m : Dict V) → IsDistinct m → IsDistinct (normalize read es m)
  unfolding normalize
  normalize-IsDistinct [] m d = d
  normalize-IsDistinct ((k, v) ∷ es) m d =
      normalize-IsDistinct es (put_entry (read k v) m) (put_entry-IsDistinct (read k v) m d)

  pub normalize_object-IsDistinct : (raw : Option Value) → IsDistinct (normalize_object read raw)
  unfolding normalize_object
  normalize_object-IsDistinct none = tt
  normalize_object-IsDistinct (some v) = by_entries (entries v)
    where
      by_entries :
          (es : Option (List (String × Value)))
          → IsDistinct (elim es [ none ↦ [] | some es' ↦ normalize read es' [] ])
      by_entries none = tt
      by_entries (some es) = normalize-IsDistinct es [] tt

  -- What was written by `write` is read as it was.
  pub normalize-map :
      (write : V → Value) (m before : Dict V)
      → All (λ e. read e.0 (write e.1) ≡ some e) m
      → IsDistinct (before ++ m)
      → normalize read (map (λ e. (e.0, write e.1)) m) before ≡ before ++ m
  unfolding normalize put_entry
  normalize-map write [] before h d = sym (append-nil before)
  normalize-map write ((k, v) ∷ m) before (h, hs) d =
      let put : set before k v ≡ before ++ ((k, v) ∷ []) =
        set_of_none before k v (get_before_none before m k v d) in
      let regroup : (before ++ ((k, v) ∷ [])) ++ m ≡ before ++ ((k, v) ∷ m) =
        append_assoc before ((k, v) ∷ []) m in
      ap (λ e. normalize read (map (λ f. (f.0, write f.1)) m) (put_entry e before)) h
      ∙ ap (normalize read (map (λ f. (f.0, write f.1)) m)) put
      ∙ normalize-map write m (before ++ ((k, v) ∷ [])) hs (subst IsDistinct (sym regroup) d)
      ∙ regroup

  pub normalize_object-map :
      (write : V → Value) (m : Dict V)
      → All (λ e. read e.0 (write e.1) ≡ some e) m
      → IsDistinct m
      → normalize_object read (some (object (fields (map (λ e. (e.0, write e.1)) m)))) ≡ m
  unfolding normalize_object entries
  normalize_object-map write m h d =
      rw (pairs-fields (map (λ e. (e.0, write e.1)) m)) (normalize-map write m [] h d)

module _ {ℓ κ} {V : Type ℓ} (read : String → Value → Option (String × V)) (P : String × V → Type κ)
    (sound : (k : String) (v : Value) (e : String × V) → read k v ≡ some e → P e) where
  pub put_entry-All :
      (e : Option (String × V)) (m : Dict V)
      → ((e' : String × V) → e ≡ some e' → P e')
      → All P m
      → All P (put_entry e m)
  unfolding put_entry
  put_entry-All none m h k = k
  put_entry-All (some (i, v)) m h k = All-set P m i v k (h (i, v) refl)

  normalize-All : (es : List (String × Value)) (m : Dict V) → All P m → All P (normalize read es m)
  unfolding normalize
  normalize-All [] m h = h
  normalize-All ((k, v) ∷ es) m h =
      normalize-All es (put_entry (read k v) m) (put_entry-All (read k v) m (sound k v) h)

  pub normalize_object-All : (raw : Option Value) → All P (normalize_object read raw)
  unfolding normalize_object
  normalize_object-All none = tt
  normalize_object-All (some v) = by_entries (entries v)
    where
      by_entries :
          (es : Option (List (String × Value)))
          → All P (elim es [ none ↦ [] | some es' ↦ normalize read es' [] ])
      by_entries none = tt
      by_entries (some es) = normalize-All es [] tt
