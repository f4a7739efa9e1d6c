-- ===== src/Upload/Preview.antt =====
-- The digest that frontend/src/components/UploadPanel.tsx shows of a file, and its size.
use mirraura.Base.{◌≡◌, refl, Text, none, some}
use mirraura.Api.Request.{File, Outcome, fulfilled, rejected, Failure}
use mirraura.Upload.{Upload, handle_file, hash_answered, view}

-- If the digest is answered before another file is chosen, it is the one that is shown with its file,
-- and none is shown if it could not be computed. But an answer that comes after another file has been
-- chosen is shown with that file: with two files chosen one after the other and the first one's digest
-- answered last, the second file is shown with the digest of the first.
pub shown_digest :
    (s : Upload) (f g : File) (hf hg : Text) (answer : Outcome Text)
    → ((view (hash_answered (fulfilled hf) (handle_file f s))).hash ≡ some hf)
      × ((hash_answered answer (handle_file f s)).file ≡ some f)
      × ((e : Failure) → (view (hash_answered (rejected e) (handle_file f s))).hash ≡ none)
      × (let t =
            hash_answered
              (fulfilled hf)
              (hash_answered (fulfilled hg) (handle_file g (handle_file f s))) in
          (t.file ≡ some g) × ((view t).hash ≡ some hf))
unfolding view hash_answered handle_file
shown_digest s f g hf hg (fulfilled h) = (refl, refl, (λ e. refl), (refl, refl))
shown_digest s f g hf hg (rejected e) = (refl, refl, (λ e. refl), (refl, refl))
