-- ===== src/Examples/Pipe.antt =====
-- A pipe whose counters are about to wrap, with one byte in it.
use csci_315_operating_sytem.Prelude.{
  ℕ, ◌-◌, ◌^◌, ◌≡◌, arith, true, false, Option, some, none, if◌then◌else◌, ltb, List, [], ◌⊎◌,
}
use csci_315_operating_sytem.Pipe.Defs.{Pipe, returned, failed, asleep, pipewrite, piperead}
use csci_315_operating_sytem.Pipe.Window.{contents, count, IsPipe}
use csci_315_operating_sytem.Pipe.Write.{Wrote, pipewrite-Wrote}
use csci_315_operating_sytem.Pipe.Read.{Took, piperead-Took}

abbrev one_byte : Pipe
one_byte = record {
  bytes = λ _. 65;
  nread = 2 ^ 32 - 1;
  nwrite = 0;
  readopen = true;
  writeopen = true;
}

one_byte-IsPipe : IsPipe one_byte
unfolding count
one_byte-IsPipe = record { nread_uint = omega arith; nwrite_uint = omega arith; fits = omega arith }

-- User memory that ends at address 10.
abbrev memory : ℕ → Option ℕ
memory a = if ltb a 10 then some a else none

pipewrite_example :
    (bs : List ℕ) × Wrote memory
      (λ _. false)
      8
      0
      5
      one_byte
      (pipewrite memory (λ _. false) 8 5 0 one_byte).0
      (pipewrite memory (λ _. false) 8 5 0 one_byte).1
      bs
pipewrite_example = pipewrite-Wrote memory (λ _. false) 8 5 0 one_byte (omega arith) one_byte-IsPipe

piperead_example :
    (((c : ℕ) × ((piperead (λ _. true) 8 false 5 one_byte).0 ≡ returned c)
        × Took
            (λ _. true)
            8
            0
            5
            one_byte
            c
            (piperead (λ _. true) 8 false 5 one_byte).1
            (piperead (λ _. true) 8 false 5 one_byte).2)
      ⊎ ((contents one_byte ≡ [])
          × (one_byte.writeopen ≡ true)
          × ((piperead (λ _. true) 8 false 5 one_byte).0 ≡ (if false then failed else asleep 0))
          × ((piperead (λ _. true) 8 false 5 one_byte).1 ≡ [])
          × ((piperead (λ _. true) 8 false 5 one_byte).2 ≡ one_byte)))
piperead_example = piperead-Took (λ _. true) 8 false 5 one_byte one_byte-IsPipe
