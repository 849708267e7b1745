-- ===== src/Strings/Defs.antt =====
-- The functions of kernel/string.c. Memory is a function from addresses to bytes; the address ranges
-- do not wrap. A difference of two bytes is returned as the two bytes.
use csci_315_operating_sytem.Prelude.{
  ℕ, zero, suc, ◌+◌, ◌%◌, ◌&&◌, not, Option, none, some, ◌==◌, ltb, if◌then◌else◌, update,
}

abbrev pub Memory : Type 0
Memory = ℕ → ℕ

-- `cdst[i] = c`, for a `char`.
unfoldable pub memset_loop : (dst c rounds i : ℕ) → Memory → Memory
memset_loop dst c zero i m = m
memset_loop dst c (suc r) i m = memset_loop dst c r (i + 1) (update m (dst + i) (c % 256))

unfoldable pub memset : (dst c n : ℕ) → Memory → Memory
memset dst c n m = memset_loop dst c n 0 m

unfoldable pub memcmp_loop : Memory → (s1 s2 rounds : ℕ) → ℕ × ℕ
memcmp_loop m s1 s2 zero = (0, 0)
memcmp_loop m s1 s2 (suc r) =
    let rest = memcmp_loop m (s1 + 1) (s2 + 1) r in
    if not (m s1 == m s2) then (m s1, m s2) else rest

unfoldable pub memcmp : Memory → (v1 v2 n : ℕ) → ℕ × ℕ
memcmp m v1 v2 n = memcmp_loop m v1 v2 n

-- `while(n-- > 0) *--d = *--s;`, where `d` and `s` are at the end.
unfoldable pub move_down : (dst src rounds : ℕ) → Memory → Memory
move_down dst src zero m = m
move_down dst src (suc r) m = move_down dst src r (update m (dst + r) (m (src + r)))

-- `while(n-- > 0) *d++ = *s++;`
unfoldable pub move_up : (dst src rounds : ℕ) → Memory → Memory
move_up dst src zero m = m
move_up dst src (suc r) m = move_up (dst + 1) (src + 1) r (update m dst (m src))

unfoldable pub memmove : (dst src n : ℕ) → Memory → Memory
memmove dst src n m =
    if n == 0
    then m
    else (if ltb src dst && ltb dst (src + n) then move_down dst src n m else move_up dst src n m)

unfoldable pub memcpy : (dst src n : ℕ) → Memory → Memory
memcpy dst src n m = memmove dst src n m

unfoldable pub strncmp : Memory → (p q n : ℕ) → ℕ × ℕ
strncmp m p q zero = (0, 0)
strncmp m p q (suc n) =
    let rest = strncmp m (p + 1) (q + 1) n in
    if not (m p == 0) && (m p == m q) then rest else (m p, m q)

-- `while(n-- > 0) *s++ = 0;`
unfoldable pub pad : (s rounds : ℕ) → Memory → Memory
pad s zero m = m
pad s (suc r) m = pad (s + 1) r (update m s 0)

unfoldable pub strncpy : (s t n : ℕ) → Memory → Memory
strncpy s t zero m = m
strncpy s t (suc n) m =
    let rest = strncpy (s + 1) (t + 1) n (update m s (m t)) in
    if m t == 0 then pad (s + 1) n (update m s (m t)) else rest

-- The loop of `safestrcpy`, in which at most `rounds` bytes are copied, and the last store. A NUL that
-- is copied is followed by another.
unfoldable pub safe_loop : (s t rounds : ℕ) → Memory → Memory
safe_loop s t zero m = update m s 0
safe_loop s t (suc r) m =
    let rest = safe_loop (s + 1) (t + 1) r (update m s (m t)) in
    if m t == 0 then update (update m s (m t)) (s + 1) 0 else rest

-- An `n` of 0 stands for any that is not positive.
unfoldable pub safestrcpy : (s t n : ℕ) → Memory → Memory
safestrcpy s t zero m = m
safestrcpy s t (suc n) m = safe_loop s t n m

-- `strlen` on fuel: `none` if there is no NUL among the first `fuel` bytes from `n` on.
unfoldable pub strlen_loop : Memory → (s fuel n : ℕ) → Option ℕ
strlen_loop m s zero n = none
strlen_loop m s (suc f) n =
    let rest = strlen_loop m s f (n + 1) in if m (s + n) == 0 then some n else rest

unfoldable pub strlen : Memory → (s fuel : ℕ) → Option ℕ
strlen m s fuel = strlen_loop m s fuel 0
