-- ===== src/Text/Tests.antt =====
-- `str2int` on a number that fits an int, and on one that does not.
use slurm_spank_plugins.Base.{◌≡◌, refl, arith, pos, codes}
use slurm_spank_plugins.Text.{str2int, strtol, after_sign, signed, read_digits, skip_space, to_int}
use slurm_spank_plugins.Text.Digits.{str2int_digits}

cut_to_int : str2int (codes "4294967297") ≡ pos 1
unfolding str2int strtol after_sign signed read_digits skip_space to_int
cut_to_int = refl

str2int_digits_example : str2int (codes "4294967313") ≡ pos 17
str2int_digits_example =
    str2int_digits b'4' (codes "294967313") 17 1
      (refl, (refl, (refl, (refl, (refl, (refl, (refl, (refl, (refl, (refl, tt))))))))))
      (omega arith) refl (omega arith)
