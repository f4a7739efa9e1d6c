-- ===== src/Hashes/Tests.antt =====
-- frontend/src/components/PendingHashApprovals.tsx at concrete inputs.
use mirraura.Base.{◌≡◌, refl, [], ◌∷◌, text, Text, trim, none, is_space, trim_start, false, some}
use mirraura.Types.{pending, approved}
use mirraura.Api.Endpoints.{HashEntry, EntrySource}
use mirraura.Api.Hex.{is_valid_sha256, replicate}
use mirraura.Review
use mirraura.Review.{calls, rows_of}
use mirraura.Hashes.{Hashes, start}

abbrev digest : Text
digest = replicate 64 b'a'

abbrev short : Hashes
short = record start { hash_input = b'a' ∷ [] }

short_is_invalid : is_valid_sha256 (trim short.hash_input) ≡ false
unfolding is_valid_sha256 trim trim_start is_space
short_is_invalid = refl

abbrev proposed : HashEntry
proposed = record {
  hash = digest;
  label = [];
  status = pending;
  source = EntrySource.manual;
  proposed_at = text "now";
  reviewed_at = none;
}

abbrev two_entries : Hashes
two_entries = record start {
  review = record Review.start {
    entries = record proposed { status = approved } ∷ proposed ∷ [];
    busy = some digest;
    loading = false;
  };
}
