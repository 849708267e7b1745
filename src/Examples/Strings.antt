-- ===== src/Examples/Strings.antt =====
-- Bytes that count up from address 0, and a string at 100.
use csci_315_operating_sytem.Prelude.{◌+◌, ◌≡◌, refl, arith, some, inl, inr, if◌then◌else◌, ◌==◌}
use csci_315_operating_sytem.Strings.Defs.{Memory, memmove, safestrcpy, strlen}
use csci_315_operating_sytem.Strings.Blocks.{Spliced, memmove-Spliced}
use csci_315_operating_sytem.Strings.Text.{
  HasLength, strlen-HasLength, StopsAt, Copied, safestrcpy-Copied,
}

abbrev counting : Memory
counting a = if a == 103 then 0 else a + 1

-- The target begins within the source.
memmove_example : Spliced 12 5 (λ k. counting (10 + k)) counting (memmove 12 10 5 counting)
memmove_example = memmove-Spliced 12 10 5 counting

counting-HasLength : HasLength counting 100 3
counting-HasLength = record { ends = refl; goes_on = λ k lt. ground arith }

strlen_example : strlen counting 100 10 ≡ some 3
strlen_example = strlen-HasLength counting 100 10 3 counting-HasLength (omega arith)

counting-StopsAt : StopsAt counting 100 7 3
counting-StopsAt = record { within = omega arith; goes_on = λ k lt. ground arith; why = inr refl }

safestrcpy_example : Copied counting 20 100 7 3 (safestrcpy 20 100 8 counting)
safestrcpy_example = safestrcpy-Copied counting 20 100 7 3 (inl (omega arith)) counting-StopsAt
