-- ===== src/Printf/Tests.antt =====
-- Runs of `printf_number` and `kprintf`.
use ab_os.Base.{ℕ, ◌+◌, ◌≤◌, ◌≡◌, ◌≢◌, inr, refl, true, false, List, [], ◌∷◌, arith, Memory, length}
use mathlib.Core.List.{flat_map}
use ab_os.Console.{Screen}
use ab_os.Printf.{default, long, number_chars, fetch, digit_loop, div64_32, hex_char, kprintf}
use ab_os.Printf.Number.{value_of, leading, number_chars_lem, fetch_signed}
use ab_os.Printf.Format.{Directive, text, convert, lower_hex, string, render, run, kprintf-run}

number_chars_minus : number_chars 305 true 10 ≡ b'-' ∷ b'3' ∷ b'0' ∷ b'5' ∷ []
unfolding number_chars digit_loop div64_32 hex_char
number_chars_minus = refl

number_chars_lem_example :
    let digits = number_chars 48879 false 16 in
    (value_of 16 0 digits ≡ 48879)
    × (◌≢◌ {A = ℕ} 48879 0 → leading digits ≢ b'0')
    × (number_chars 48879 true 16 ≡ b'-' ∷ digits)
    × (length (number_chars 48879 true 16) ≤ 23)
number_chars_lem_example = number_chars_lem 48879 16 (inr (inr refl)) (omega arith)

fetch_signed_example : fetch (λ i. 0xffff_ffff) 0 default true ≡ ((1, true), 1)
fetch_signed_example = fetch_signed (λ i. 0xffff_ffff) 0 default (omega arith) (omega arith)

-- "x%s=%lx"
abbrev format : List Directive
format = text b'x' ∷ convert default string ∷ text b'=' ∷ convert long lower_hex ∷ []

abbrev strings : ℕ → List ℕ
strings a = b'm' ∷ []

abbrev words : Memory
words i = 100 + i

abbrev blank : Screen
blank = record { vga = λ a. 0; x = 0; y = 0; outs = [] }

kprintf-run_example :
    kprintf strings words (flat_map render format) blank ≡ (run strings words format (blank, 0)).0
kprintf-run_example = kprintf-run strings words format blank (omega arith, (omega arith, tt))
