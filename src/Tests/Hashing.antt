-- ===== src/Tests/Hashing.antt =====
-- Tests: hashing.
use spio.Prelude.{Bytes, text, true, some, ok, ◌≡◌, refl, arith, ◌>>=◌}
use spio.Patterns.{regex_match, sha256_regex}
use spio.Sha256.{sha256_text, sha256_file, initial, update, full, end_of_file}
use spio.Sha256.Standard.{standard_digest}
use spio.Sha256.Standard.Agrees.{sha256_text-standard}
use spio.Sha256.Pieces.{update-append, sha256_file-eq-sha256_text, contents}
use spio.Sha256.Digest.{sha256_text-matches}

-- the digest of "abc", from FIPS 180-4
sha256_text_abc :
    sha256_text (text "abc")
    ≡ ok (text "ba7816bf8f01cfea414140de5dae2223b00361a396177a9cb410ff61f20015ad")
unfolding sha256_text
sha256_text_abc = refl

sha256_file-eq-sha256_text_example :
    sha256_file (some (full (text "ab") (end_of_file (text "c")))) ≡ sha256_text (text "abc")
unfolding contents
sha256_file-eq-sha256_text_example =
    sha256_file-eq-sha256_text (full (text "ab") (end_of_file (text "c")))

update-append_example :
    (update initial (text "ab") >>= λ t. update t (text "c")) ≡ update initial (text "abc")
update-append_example = update-append initial (text "ab") (text "c") (unfold initial in omega arith)

sha256_text-matches_example :
    (digest : Bytes) × (sha256_text (text "abc") ≡ ok digest)
    × (regex_match sha256_regex digest ≡ true)
sha256_text-matches_example = sha256_text-matches (text "abc")

sha256_text-standard_example : sha256_text (text "abc") ≡ ok (standard_digest (text "abc"))
sha256_text-standard_example = sha256_text-standard (text "abc")
