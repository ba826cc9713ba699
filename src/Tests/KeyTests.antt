-- ===== src/Tests/KeyTests.antt =====
-- Keys with the identity for the digest.
use codegraph_mcp.Base.{
  Str, Str-discrete, [], get, if◌then◌else◌, nat_key, none, pair_key, put, refl, some, str, str_key,
  ℕ_discrete, ◌==◌, ◌∷◌, ◌≡◌,
}
use codegraph_mcp.ClientTokens.{
  KeyRow, KeyStore, User, empty_store, create, revoke, resolve, Keyring, resolve_user_token,
  is_plausible,
}
use codegraph_mcp.ClientTokens.Keys.{
  IsStore, empty_store-IsStore, create-IsStore, is_id, holder, holder-create, holder-revoke,
  holder-resolve,
}
use codegraph_mcp.ClientTokens.Cache.{IsKeyring, resolve_user_token-holder}

abbrev same : Str → Str
same t = t

abbrev ann_key : Str
ann_key = str "cgu_ann1"

abbrev ann : User
ann = record { user_id = 1; name = str "ann"; email = str "a@b" }

abbrev one : KeyStore
one = (create same ann_key (str "ann") (str "a@b") 5 empty_store).0

abbrev ring : Keyring
ring = record { store = one; refused = (str "cgu_bad1", 90) ∷ [] }

ring-IsKeyring : IsKeyring ring
unfolding create get put Str-discrete
ring-IsKeyring = (refl, tt)

keys_run :
    ((resolve same ann_key 6 one).1 ≡ some ann)
    × ((resolve same ann_key 6 (revoke 1 one).0).1 ≡ none)
    × ((resolve_user_token same 1 (str "cgu_bad1") 30 6 ring).1 ≡ none)
unfolding create revoke resolve resolve_user_token get put Str-discrete ℕ_discrete
keys_run = (refl, refl, refl)

holder-revoke_example :
    holder ann_key (revoke 1 one).0
    ≡ (if is_id 1 (get ann_key one.by_hash) then none else holder ann_key one)
holder-revoke_example = holder-revoke ann_key 1 one

holder-resolve_example : holder ann_key (resolve same ann_key 6 one).0 ≡ holder ann_key one
holder-resolve_example = holder-resolve same ann_key ann_key 6 one

resolve_user_token-holder_example :
    (resolve_user_token same 1 ann_key 30 6 ring).1
    ≡ (if is_plausible ann_key then holder (same ann_key) ring.store else none)
resolve_user_token-holder_example =
    resolve_user_token-holder same 1 ann_key 30 6 ring ring-IsKeyring

abbrev ann_row : KeyRow
ann_row = (create same ann_key (str "ann") (str "a@b") 5 empty_store).1

one-IsStore : IsStore one
one-IsStore = create-IsStore same ann_key (str "ann") (str "a@b") 5 empty_store empty_store-IsStore

holder-create_example :
    holder (str "cgu_bob1") (create same (str "cgu_bob1") (str "bob") (str "b@b") 6 one).0 ≡ (
      if str "cgu_bob1" == same (str "cgu_bob1")
      then some (record { user_id = one.next_id; name = str "bob"; email = str "b@b" })
      else holder (str "cgu_bob1") one)
holder-create_example =
    holder-create same (str "cgu_bob1") (str "cgu_bob1") (str "bob") (str "b@b") 6 one one-IsStore
