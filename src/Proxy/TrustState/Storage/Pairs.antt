-- ===== src/Proxy/TrustState/Storage/Pairs.antt =====
-- The stored pairs are the set that was saved.
use clawdentity.Shared.{String, ◌||◌, ◌==◌, ◌≡◌, refl, ap, ◌∙◌, List, [], ◌∷◌, map, any, arith}
use clawdentity.Shared.Json.{text, values, items, values-items}
use clawdentity.Proxy.Trust.Store.{has, add}
use clawdentity.Proxy.Trust.Store.Pairs.{has-add}
use clawdentity.Proxy.TrustState.Utils.{insert_sorted, sort}
use clawdentity.Proxy.TrustState.Storage.{Storage, texts_in, to_set, load_pairs, save_pairs}

texts_in-map : (ks : List String) → texts_in (map (λ k. text k) ks) ≡ ks
unfolding texts_in
texts_in-map [] = refl
texts_in-map (k ∷ ks) = ap (λ l. k ∷ l) (texts_in-map ks)

has-insert :
    (j : String) (ks : List String) (k : String) → has (insert_sorted j ks) k ≡ (j == k || has ks k)
unfolding insert_sorted has any
has-insert j [] k = refl
has-insert j (i ∷ ks) k = ground (arith, has-insert j ks k)

has-sort : (ks : List String) (k : String) → has (sort ks) k ≡ has ks k
unfolding sort has any
has-sort [] k = refl
has-sort (j ∷ ks) k = has-insert j (sort ks) k ∙ ap (λ b. j == k || b) (has-sort ks k)

has-to_set :
    (ks seen : List String) (k : String) → has (to_set ks seen) k ≡ (has seen k || has ks k)
unfolding to_set has any
has-to_set [] seen k = ground arith
has-to_set (j ∷ ks) seen k = ground (arith, has-to_set ks (add seen j) k, has-add seen j k)

pub has-load_pairs :
    (keys : List String) (st : Storage) (k : String)
    → has (load_pairs (save_pairs keys st)) k ≡ has keys k
unfolding load_pairs save_pairs has any
has-load_pairs keys st k =
    let stored : texts_in (values (items (map (λ j. text j) (sort keys)))) ≡ sort keys =
      ap texts_in (values-items (map (λ j. text j) (sort keys))) ∙ texts_in-map (sort keys) in
    ap (λ ks. has (to_set ks []) k) stored ∙ has-to_set (sort keys) [] k ∙ has-sort keys k
