-- ===== src/Auth/Revocation.antt =====
-- The revocations of sessions (apps/api/internal/auth/revocation.go). `fails` says that a statement
-- fails; a moment is a whole second; FNV-1a over the bytes of a UUID is a parameter. The refresh loop
-- and its ticker are left out: a refresh is one step.
pub mod Bloom
pub mod Complete
use lecrm.Common.{
  ℕ, zero, suc, ◌+◌, ◌*◌, ◌/◌, ◌%◌, ◌^◌, Bool, true, false, ◌&&◌, ◌||◌, not, Option, none, some,
  List, [], ◌∷◌, ◌++◌, any, length, ltb, leb, eqb, ◌==◌, nat_eq, if◌then◌else◌, Result, ok, err,
  lookup, insert,
}

-- A row of core.session_revocations.
pub record SessionRevocation : Type 0 where
  pub jti : ℕ
  pub user_id : ℕ
  pub expires_at : ℕ

-- The two tables; `users` has the moment from which on a user's older sessions are revoked.
pub record Revocations : Type 0 where
  pub sessions : List SessionRevocation
  pub users : List (ℕ × ℕ)

abbrev pub has_jti : ℕ → SessionRevocation → Bool
has_jti jti row = row.jti == jti

-- `RevokeSession`; true where the statement went through.
unfoldable pub revoke_session : Bool → ℕ → ℕ → ℕ → Revocations → Revocations × Bool
revoke_session fails jti user expires db =
    if fails then (db, false) else if any (has_jti jti) db.sessions then (db, true) else (
      record db {
        sessions = db.sessions ++ record { jti = jti; user_id = user; expires_at = expires } ∷ [];
      },
      true,
    )

-- `RevokeAllUserSessions`
unfoldable pub revoke_all_user_sessions : Bool → ℕ → ℕ → Revocations → Revocations × Bool
revoke_all_user_sessions fails now user db =
    if fails then (db, false) else (record db { users = insert user now db.users }, true)

unfoldable pub drop_expired : ℕ → List SessionRevocation → List SessionRevocation
drop_expired now [] = []
drop_expired now (row ∷ rows) =
    let rest = drop_expired now rows in if ltb row.expires_at now then rest else row ∷ rest

-- `CleanExpiredRevocations`
unfoldable pub clean_expired_revocations : Bool → ℕ → Revocations → Revocations × Bool
clean_expired_revocations fails now db =
    if fails then (db, false) else (record db { sessions = drop_expired now db.sessions }, true)

-- Bit `k` of a word, and the word with it set.
unfoldable pub test_bit : ℕ → ℕ → Bool
test_bit zero w = eqb (w % 2) 1
test_bit (suc k) w = test_bit k (w / 2)

unfoldable pub set_bit : ℕ → ℕ → ℕ
set_bit zero w = w / 2 * 2 + 1
set_bit (suc k) w = set_bit k (w / 2) * 2 + w % 2

pub record BloomFilter : Type 0 where
  pub bits : List ℕ
  pub num_bits : ℕ
  pub num_hash : ℕ

unfoldable pub zeros : ℕ → List ℕ
zeros zero = []
zeros (suc n) = 0 ∷ zeros n

abbrev or_default : ℕ → ℕ → ℕ
or_default n default = if eqb n 0 then default else n

-- `newBloomFilter`
unfoldable pub new_bloom_filter : ℕ → ℕ → BloomFilter
new_bloom_filter expected hashes =
    let words = (or_default expected 1 * 10 + 63) / 64 in
    record { bits = zeros words; num_bits = words * 64; num_hash = or_default hashes 6 }

-- The word at an index, and the words with a bit of it set.
unfoldable pub bit_at : ℕ → ℕ → List ℕ → Bool
bit_at i k [] = false
bit_at zero k (w ∷ words) = test_bit k w
bit_at (suc i) k (w ∷ words) = bit_at i k words

unfoldable pub set_bit_at : ℕ → ℕ → List ℕ → List ℕ
set_bit_at i k [] = []
set_bit_at zero k (w ∷ words) = set_bit k w ∷ words
set_bit_at (suc i) k (w ∷ words) = w ∷ set_bit_at i k words

-- The two halves of a hash.
abbrev pub hashes : (ℕ → ℕ) → ℕ → ℕ × ℕ
hashes sum64 jti = (sum64 jti % 2 ^ 64 / 2 ^ 32, sum64 jti % 2 ^ 32)

-- The position of probe `i`.
unfoldable pub probe : ℕ → ℕ × ℕ → ℕ → ℕ
probe num_bits (h1, h2) i = (h1 + i * h2 % 2 ^ 64) % 2 ^ 64 % num_bits

-- The loop of `add`, from probe `i` on with `n` to go.
unfoldable pub add_probes : ℕ → ℕ → ℕ → ℕ × ℕ → List ℕ → List ℕ
add_probes num_bits zero i h bits = bits
add_probes num_bits (suc n) i h bits =
    add_probes num_bits n (i + 1) h
      (set_bit_at (probe num_bits h i / 64) (probe num_bits h i % 64) bits)

unfoldable pub add : (ℕ → ℕ) → ℕ → BloomFilter → BloomFilter
add sum64 jti bf = record bf {
  bits = add_probes bf.num_bits bf.num_hash 0 (hashes sum64 jti) bf.bits;
}

unfoldable pub test_probes : ℕ → ℕ → ℕ → ℕ × ℕ → List ℕ → Bool
test_probes num_bits zero i h bits = true
test_probes num_bits (suc n) i h bits =
    let rest = test_probes num_bits n (i + 1) h bits in
    if bit_at (probe num_bits h i / 64) (probe num_bits h i % 64) bits then rest else false

unfoldable pub test : (ℕ → ℕ) → ℕ → BloomFilter → Bool
test sum64 jti bf = test_probes bf.num_bits bf.num_hash 0 (hashes sum64 jti) bf.bits

pub record RevocationCache : Type 0 where
  pub filter : BloomFilter
  pub user_revoked : List (ℕ × ℕ)

-- `NewRevocationCache`
abbrev pub new_revocation_cache : RevocationCache
new_revocation_cache = record { filter = new_bloom_filter 100 6; user_revoked = [] }

-- `loadRevokedJTIs`
unfoldable pub load_revoked_jtis : ℕ → List SessionRevocation → List ℕ
load_revoked_jtis now [] = []
load_revoked_jtis now (row ∷ rows) =
    let rest = load_revoked_jtis now rows in if ltb now row.expires_at then row.jti ∷ rest else rest

unfoldable pub add_all : (ℕ → ℕ) → List ℕ → BloomFilter → BloomFilter
add_all sum64 [] bf = bf
add_all sum64 (jti ∷ jtis) bf = add_all sum64 jtis (add sum64 jti bf)

abbrev at_least : ℕ → ℕ → ℕ
at_least least n = if ltb n least then least else n

abbrev pub filter_of : (ℕ → ℕ) → List ℕ → BloomFilter
filter_of sum64 jtis = add_all sum64 jtis (new_bloom_filter (at_least 100 (length jtis)) 6)

-- `refresh`, with each of the two queries failing or not.
unfoldable pub refresh : (ℕ → ℕ) → Bool → Bool → ℕ → Revocations → RevocationCache → RevocationCache
refresh sum64 sessions_fail users_fail now db rc =
    if sessions_fail
    then rc
    else (let bf = filter_of sum64 (load_revoked_jtis now db.sessions) in
        if users_fail
        then record rc { filter = bf }
        else record { filter = bf; user_revoked = db.users })

abbrev pub is_older : ℕ → Option ℕ → Bool
is_older issued none = false
is_older issued (some revoked) = leb issued revoked

abbrev pub is_active : ℕ → ℕ → SessionRevocation → Bool
is_active now jti row = row.jti == jti && ltb now row.expires_at

-- `IsRevoked` of the cache, `err` where the point query fails.
unfoldable pub is_revoked :
    (ℕ → ℕ) → Bool → ℕ → Revocations → RevocationCache → ℕ → ℕ → ℕ → Result (Unit {0}) Bool
is_revoked sum64 fails now db rc jti user issued =
    if is_older issued (lookup user rc.user_revoked)
    then ok true
    else if not (test sum64 jti rc.filter)
    then ok false
    else if fails
    then err tt
    else ok (any (is_active now jti) db.sessions)
