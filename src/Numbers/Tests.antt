-- ===== src/Numbers/Tests.antt =====
-- Numbers that are printed and read back.
use tatak_os.Base.{◌≡◌, refl, true, some, [], ◌∷◌}
use tatak_os.Numbers.{put_digits, printint}

minus_test : printint 4294967284 10 true ≡ some (45 ∷ 49 ∷ 50 ∷ [])
unfolding printint put_digits
minus_test = refl
