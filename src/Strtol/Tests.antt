-- ===== src/Strtol/Tests.antt =====
-- Texts that are converted.
use radish_os.Prelude.{◌-◌, ◌≡◌, refl, inl, true, false, some, [], arith, ◌∷◌}
use radish_os.Prelude.Words.{u64_mod}
use radish_os.Cash.Text.{codes}
use radish_os.Strtol.{
  Converted, skip, strtol, strtoul, strtoll, strtoull, long_max, long_min, ulong_max, scan_digits,
}
use radish_os.Strtol.Number.{minus_sign, number_from, without_digits}
use radish_os.Strtol.Clamp.{strtol_lem, strtoul_lem}

strtol_lem_example :
    (r : Converted) × (strtol (codes " -42z") 10 ≡ some r)
    × (r.value ≡ u64_mod - 42)
    × (r.range ≡ false)
    × (r.end ≡ codes "z")
unfolding number_from without_digits
strtol_lem_example =
    strtol_lem (b' ' ∷ []) minus_sign (codes "42z") 10 (inl refl, tt) tt (omega arith) (omega arith)
      refl refl refl

strtoul_lem_example :
    ((strtoul (codes "-18446744073709551616;") 10).value ≡ ulong_max)
    × ((strtoul (codes "-18446744073709551616;") 10).range ≡ true)
    × ((strtoul (codes "-18446744073709551616;") 10).end ≡ codes ";")
unfolding number_from without_digits
strtoul_lem_example =
    strtoul_lem [] minus_sign (codes "18446744073709551616;") 10 tt tt (omega arith) refl

-- A prefix, one that no digit follows, and a text without a number.
prefixes :
    (strtol (codes "0xfFg") 0 ≡ some (record { value = 255; end = codes "g"; range = false }))
    × (strtol (codes "0xg") 16 ≡ some (record { value = 0; end = codes "xg"; range = false }))
    × (strtoul (codes "+0X1F") 16 ≡ record { value = 31; end = []; range = false })
    × (strtoul (codes " z") 10 ≡ record { value = 0; end = codes " z"; range = false })
unfolding strtol strtoul skip scan_digits
prefixes = (refl, refl, refl, refl)

-- The least number is in the range of `strtol`, and the one below is not.
limits :
    (strtoll (codes "-9223372036854775808") 10
      ≡ some (record { value = long_min; end = []; range = false }))
    × (strtoll (codes "-9223372036854775809") 10
        ≡ some (record { value = long_min; end = []; range = true }))
    × (strtoll (codes "9223372036854775808") 10
        ≡ some (record { value = long_max; end = []; range = true }))
    × (strtoull (codes "07777") 0 ≡ record { value = 4095; end = []; range = false })
unfolding strtoll strtoull strtol strtoul skip scan_digits
limits = (refl, refl, refl, refl)
