-- ===== src/OAuthState.antt =====
-- services/control-plane/src/adapters/redis/in-memory-oauth-state-store.ts: the OAuth flows in flight.
-- The Redis store of production keeps the same contract with GETDEL and an expiry of the key.
pub mod Once
use logalot.Base.{
  none, some, [], if◌then◌else◌, Option, Text, ℕ, List, Bool, delete_where, ltb, find_where, ◌===◌,
  ◌++◌, ◌+◌, ◌*◌, ◌∷◌,
}

-- `meta` has the keys that the flow writes; a key may be missing.
pub record OAuthMeta : Type 0 where
  pub provider : Option Text
  pub code_verifier : Option Text
  pub nonce : Option Text
  pub return_to : Option Text

pub record OAuthStateRecord : Type 0 where
  pub state : Text
  pub tenant_id : Text
  pub meta : OAuthMeta
  pub created_at : ℕ

pub record Entry : Type 0 where
  pub value : OAuthStateRecord
  pub expires_at : ℕ

-- The map, by the key `record.state`: at most one entry for a key.
abbrev pub StateStore : Type 0
StateStore = List Entry

abbrev pub is_for : Text → Entry → Bool
is_for state e = e.value.state === state

-- `Map.set`, which takes the place of an entry with the key
unfoldable pub put : OAuthStateRecord → ℕ → ℕ → StateStore → StateStore
put value ttl_seconds now store =
    delete_where (is_for value.state) store
    ++ record { value = value; expires_at = now + ttl_seconds * 1000 } ∷ []

abbrev pub unless_expired : ℕ → Option Entry → Option OAuthStateRecord
unless_expired now none = none
unless_expired now (some e) = if ltb e.expires_at now then none else some e.value

-- The entry is deleted, expired or not.
unfoldable pub consume : Text → ℕ → StateStore → Option OAuthStateRecord × StateStore
consume state now store =
    (unless_expired now (find_where (is_for state) store), delete_where (is_for state) store)
