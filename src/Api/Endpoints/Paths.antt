-- ===== src/Api/Endpoints/Paths.antt =====
-- The paths of the calls of frontend/src/api.ts that name a user, a hash or a quarantined file.
use mirraura.Types.{Role}
use mirraura.Api.Uri.{is_unreserved, encode_uri_component}
use mirraura.Api.Uri.Decode.{IsUriChar, IsUnit16}
use mirraura.Api.Uri.Reader.{encode_uri_component-round_trip}
use mirraura.Api.Hex.{is_valid_sha256}
use mirraura.Api.Hex.Format.{IsHexDigit, is_valid_sha256_iff}
use mirraura.Base.{
  ℕ, Text, text, List, [], ◌∷◌, ◌++◌, ◌≡◌, ◌≢◌, ◌==◌, if◌then◌else◌, All, arith, some, append-nil,
  append_assoc, All-mono, IsDigit, map_some, true, refl, ap, decimal, decimal_lem,
}
use mirraura.Api.Request.{Call}
use mirraura.Api.Endpoints.{
  delete_user, update_user_role, approve_hash, reject_hash, approve_quarantine, reject_quarantine,
  map_some, true, decimal,
}

-- The segments of a path, from the characters of the segment that is being read.
abbrev segments_from : Text → Text → List Text
segments_from cur [] = cur ∷ []
segments_from cur (c ∷ s) =
    let closed = cur ∷ segments_from [] s in
    let longer = segments_from (cur ++ c ∷ []) s in if c == b'/' then closed else longer

abbrev pub segments : Text → List Text
segments path = segments_from [] path

abbrev pub NoSlash : Text → Type 0
NoSlash = All (λ c. c ≢ b'/')

segments_from-append :
    (cur s rest : Text)
    → NoSlash s
    → segments_from cur (s ++ b'/' ∷ rest) ≡ (cur ++ s) ∷ segments rest
segments_from-append cur [] rest h = rw append-nil refl
segments_from-append cur (c ∷ s) rest h =
    ground (arith, segments_from-append (cur ++ c ∷ []) s rest h.1, append_assoc cur (c ∷ []) s)

segments_from_end : (cur s : Text) → NoSlash s → segments_from cur s ≡ (cur ++ s) ∷ []
segments_from_end cur [] h = rw append-nil refl
segments_from_end cur (c ∷ s) h =
    ground (arith, segments_from_end (cur ++ c ∷ []) s h.1, append_assoc cur (c ∷ []) s)

-- A character of an encoded name ends no segment, nor does a hexadecimal or a decimal digit.
IsUriChar-NoSlash : (s : Text) → All IsUriChar s → NoSlash s
unfolding is_unreserved
IsUriChar-NoSlash [] h = tt
IsUriChar-NoSlash (c ∷ s) h = ((λ e. cc (rw e at h.0)), IsUriChar-NoSlash s h.1)

IsHexDigit-NoSlash : (s : Text) → All IsHexDigit s → NoSlash s
IsHexDigit-NoSlash s = All-mono IsHexDigit (λ c. c ≢ b'/') s (λ c h. ground arith)

IsDigit-NoSlash : (s : Text) → All IsDigit s → NoSlash s
IsDigit-NoSlash s = All-mono IsDigit (λ c. c ≢ b'/') s (λ c h. omega arith)

abbrev pub path_segments : Call → List Text
path_segments c = segments c.path

-- For any name that `encodeURIComponent` accepts, the path of `deleteUser` has the segments `api`,
-- `users` and the encoded name, and that of `updateUserRole` has `role` behind them: no name adds or
-- ends a segment.
pub users-segments :
    (name e : Text) (role : Role)
    → All IsUnit16 name
    → encode_uri_component name ≡ some e
    → (map_some path_segments (delete_user name) ≡ some ([] ∷ text "api" ∷ text "users" ∷ e ∷ []))
      × (map_some path_segments (update_user_role name role)
          ≡ some ([] ∷ text "api" ∷ text "users" ∷ e ∷ text "role" ∷ []))
unfolding delete_user update_user_role text
users-segments name e role h found =
    let plain = IsUriChar-NoSlash e (encode_uri_component-round_trip name e h found).0 in
    (
      rw found (ap (λ r. some ([] ∷ text "api" ∷ text "users" ∷ r)) (segments_from_end [] e plain)),
      rw found (
          ap (λ r. some ([] ∷ text "api" ∷ text "users" ∷ r))
            (segments_from-append [] e (text "role") plain)),
    )

-- A valid hash, and the number of any quarantined file, is one segment of the path that approves or
-- rejects it, between the collection and the decision.
pub review-segments :
    (hash : Text) (id : ℕ)
    → is_valid_sha256 hash ≡ true
    → (path_segments (approve_hash hash)
        ≡ [] ∷ text "api" ∷ text "hashes" ∷ hash ∷ text "approve" ∷ [])
      × (path_segments (reject_hash hash)
          ≡ [] ∷ text "api" ∷ text "hashes" ∷ hash ∷ text "reject" ∷ [])
      × (path_segments (approve_quarantine id)
          ≡ [] ∷ text "api" ∷ text "intercept" ∷ decimal id ∷ text "approve" ∷ [])
      × (path_segments (reject_quarantine id)
          ≡ [] ∷ text "api" ∷ text "intercept" ∷ decimal id ∷ text "reject" ∷ [])
unfolding approve_hash reject_hash approve_quarantine reject_quarantine text
review-segments hash id valid =
    let plain = IsHexDigit-NoSlash hash ((is_valid_sha256_iff hash).0 valid).1 in
    let digits = IsDigit-NoSlash (decimal id) (decimal_lem id).1 in
    let under = λ (c s d : Text) (p : NoSlash s).
      ap (λ r. [] ∷ text "api" ∷ c ∷ r) (segments_from-append [] s d p) in
    (
      under (text "hashes") hash (text "approve") plain,
      under (text "hashes") hash (text "reject") plain,
      under (text "intercept") (decimal id) (text "approve") digits,
      under (text "intercept") (decimal id) (text "reject") digits,
    )
