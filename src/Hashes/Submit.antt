-- ===== src/Hashes/Submit.antt =====
-- Submitting a hash in frontend/src/components/PendingHashApprovals.tsx.
use mirraura.Base.{
  ℕ, ◌≡◌, ◌≢◌, true, false, [], ◌∷◌, ◌++◌, reverse, Text, trim, trim_padded, all_space, is_space,
  IsTrimmed, All, none, arith, All-reverse,
}
use mirraura.Api.Request.{fulfilled}
use mirraura.Api.Hex.{is_valid_sha256}
use mirraura.Api.Hex.Format.{IsHexDigit, is_valid_sha256_iff}
use mirraura.Api.Endpoints.{fetch_hashes, submit_hash}
use mirraura.Review.{calls}
use mirraura.Hashes.{Hashes, handle_submit, submit_answered}

hex_digit-not_space : (c : ℕ) → IsHexDigit c → is_space c ≡ false
unfolding is_space
hex_digit-not_space c h = ground arith

All-IsTrimmed : (s : Text) → All IsHexDigit s → IsTrimmed s
All-IsTrimmed [] h = tt
All-IsTrimmed (c ∷ s) h = hex_digit-not_space c h.0

trim_hash :
    (a hash b : Text)
    → all_space a ≡ true
    → all_space b ≡ true
    → is_valid_sha256 hash ≡ true
    → trim (a ++ (hash ++ b)) ≡ hash
trim_hash a [] b ha hb v = absurd (omega (arith, (is_valid_sha256_iff []).0 v))
trim_hash a (c ∷ s) b ha hb v =
    let digits = ((is_valid_sha256_iff (c ∷ s)).0 v).1 in
    trim_padded a b c s ha hb (All-IsTrimmed (c ∷ s) digits)
      (All-IsTrimmed (reverse (c ∷ s)) (All-reverse IsHexDigit (c ∷ s) digits))

-- A valid hash, typed with any white space around it, is sent without that space, with no error left
-- on the form, and once the call is answered with success the inputs are empty and the entries are
-- fetched anew.
pub submit_padded :
    (c : Hashes) (a hash b : Text)
    → all_space a ≡ true
    → all_space b ≡ true
    → is_valid_sha256 hash ≡ true
    → c.hash_input ≡ a ++ (hash ++ b)
    → ((handle_submit c).1 ≡ calls (submit_hash hash (trim c.label_input)) ∷ [])
      × ((handle_submit c).0.hash_error ≡ none)
      × ((submit_answered (fulfilled tt) (handle_submit c).0).0.hash_input ≡ [])
      × ((submit_answered (fulfilled tt) (handle_submit c).0).1 ≡ calls fetch_hashes ∷ [])
unfolding handle_submit submit_answered
submit_padded c a hash b ha hb v e =
    let trimmed : trim c.hash_input ≡ hash = rw e (trim_hash a hash b ha hb v) in
    ground (arith, trimmed, v)

-- An input that is no valid hash once trimmed makes no call: the form shows its error and keeps its
-- inputs and its entries.
pub submit_refused :
    (c : Hashes)
    → is_valid_sha256 (trim c.hash_input) ≡ false
    → ((handle_submit c).1 ≡ [])
      × ((handle_submit c).0.hash_error ≢ none)
      × ((handle_submit c).0.hash_input ≡ c.hash_input)
      × ((handle_submit c).0.label_input ≡ c.label_input)
      × ((handle_submit c).0.entries ≡ c.entries)
unfolding handle_submit
submit_refused c v = ground arith
