-- ===== src/Runner/Digest.antt =====
-- The check of a downloaded archive in launcher/internal/runner/runner.go. What sha512Hex makes of
-- a file is a parameter.
use egovframe_launcher.Base.{
  String, ◌<>◌, ◌≡◌, ◌↔◌, Option, none, some, str_eq, eq_iff, arith, if◌then◌else◌,
}

-- The digest in hexadecimal digits, or the error of opening or reading the file.
pub data Hashed : Type 0 where
  digest : String → Hashed
  unreadable : String → Hashed

-- `sha512MismatchErr`
unfoldable pub sha512_mismatch_err : String → String → String → String
sha512_mismatch_err source expected actual =
    source <> " SHA-512 불일치 — 손상되었거나 변조되었을 수 있습니다 (expected=" <> expected <> " actual=" <> actual
    <> ")"

abbrev pub compare_digest : String → String → Hashed → Option String
compare_digest path expected (unreadable err) = some ("failed to hash " <> path <> ": " <> err)
compare_digest path expected (digest actual) =
    if str_eq actual expected then none else some (sha512_mismatch_err path expected actual)

-- `verifyLocalSHA512`: `none` is a nil error.
unfoldable pub verify_local_sha512 : (String → Hashed) → String → String → Option String
verify_local_sha512 sha512_hex path expected = compare_digest path expected (sha512_hex path)

compare-accepts :
    (path expected : String) (h : Hashed)
    → (compare_digest path expected h ≡ none) ↔ (h ≡ digest expected)
compare-accepts path expected (unreadable err) = ground arith
compare-accepts path expected (digest actual) = ground (arith, eq_iff actual expected)

-- The check passes exactly if the file could be read and its digest is the expected one.
pub verify_local_sha512_iff :
    (sha512_hex : String → Hashed) (path expected : String)
    → (verify_local_sha512 sha512_hex path expected ≡ none) ↔ (sha512_hex path ≡ digest expected)
unfolding verify_local_sha512
verify_local_sha512_iff sha512_hex path expected = compare-accepts path expected (sha512_hex path)
