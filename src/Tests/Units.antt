-- ===== src/Tests/Units.antt =====
-- The text and path functions on literals.
use legal_system.Prelude.{true}
use legal_system.Prelude.{◌≡◌, refl, string_dec}
use legal_system.Prelude.FilePath.{suffix, as_posix}
use legal_system.Prelude.Text.{lower, strip, ends_with}

t1 : suffix "a/b.c/x.tar.MP4" ≡ ".MP4"
unfolding suffix string_dec
t1 = refl

t2 : as_posix "./a//b/" ≡ "a/b"
unfolding as_posix string_dec
t2 = refl

t3 : suffix "a/.bashrc" ≡ ""
unfolding suffix string_dec
t3 = refl

test_lower : lower "AbC-9Z" ≡ "abc-9z"
unfolding lower
test_lower = refl

test_strip : strip "  a b \n" ≡ "a b"
unfolding strip
test_strip = refl

test_ends : ends_with "x.pdf.metadata.yaml" ".metadata.yaml" ≡ true
unfolding ends_with
test_ends = refl
