-- ===== src/Config/Lines.antt =====
-- The lines of a configuration file.
use pimidi.Common.{
  ℕ, zero, suc, ◌+◌, ◌≤◌, ◌≡◌, refl, sym, ap, subst, ◌∙◌, Bool, true, false, not, some, List, [],
  ◌∷◌, ◌++◌, append_assoc, ◌==◌, length, length-append, arith,
}
use pimidi.Common.Memory.{done, fault}
use pimidi.Common.Scan.{All, get_or-All, get_or_before, take_before, get_or_behind}
use pimidi.Common.Strings.{is_space}
use pimidi.Config.{trim_from, drop_while, take_until, is_separator, parse_line}

trim_from-blank :
    (n : ℕ) (line : List ℕ)
    → All (λ c. is_space c) line
    → n ≤ length line
    → trim_from n line ≡ fault
unfolding trim_from
trim_from-blank zero line a h = refl
trim_from-blank (suc n) line a h =
    rw (get_or-All (λ c. is_space c) line n a h) (trim_from-blank n line a (omega arith))

-- A line of white space alone, as an empty line with its newline is, makes `config_load_file` read in
-- front of its buffer.
pub parse_line_blank : (line : List ℕ) → All (λ c. is_space c) line → parse_line line ≡ fault
unfolding parse_line
parse_line_blank line a = rw (trim_from-blank (length line) line a (omega arith)) refl

-- The white space behind the last other byte `c` is cut off.
trim_from-lem :
    (m : ℕ) (xs : List ℕ) (c : ℕ) (ws : List ℕ)
    → is_space c ≡ false
    → All (λ d. is_space d) ws
    → m ≤ length ws
    → trim_from (suc (length xs + m)) (xs ++ (c ∷ ws)) ≡ done (xs ++ (c ∷ []))
unfolding trim_from
trim_from-lem zero xs c ws e a h =
    let at : length xs + 0 ≡ length xs = omega arith in
    rw (at, get_or_before xs ws c, e, take_before xs ws c) refl
trim_from-lem (suc m) xs c ws e a h =
    let at : length xs + suc m ≡ suc (length xs + m) = omega arith in
    rw (at, get_or_behind xs ws c m, get_or-All (λ d. is_space d) ws m a h)
      (trim_from-lem m xs c ws e a (omega arith))

trimmed_lem :
    (xs : List ℕ) (c : ℕ) (ws : List ℕ)
    → is_space c ≡ false
    → All (λ d. is_space d) ws
    → trim_from (length (xs ++ (c ∷ ws))) (xs ++ (c ∷ ws)) ≡ done (xs ++ (c ∷ []))
trimmed_lem xs c ws e a =
    let size : length (xs ++ (c ∷ ws)) ≡ suc (length xs + length ws) =
      omega (arith, length-append xs (c ∷ ws)) in
    subst (λ n. trim_from n (xs ++ (c ∷ ws)) ≡ done (xs ++ (c ∷ []))) (sym size)
      (trim_from-lem (length ws) xs c ws e a (omega arith))

drop_while-All :
    (test : ℕ → Bool) (xs : List ℕ) (c : ℕ) (ys : List ℕ)
    → All test xs
    → test c ≡ false
    → drop_while test (xs ++ (c ∷ ys)) ≡ c ∷ ys
unfolding drop_while
drop_while-All test [] c ys a e = rw e refl
drop_while-All test (x ∷ xs) c ys a e = rw a.0 (drop_while-All test xs c ys a.1 e)

take_until-lem :
    (test : ℕ → Bool) (key : List ℕ) (c : ℕ) (ys : List ℕ)
    → All (λ d. not (test d)) key
    → test c ≡ true
    → take_until test (key ++ (c ∷ ys)) ≡ key
unfolding take_until
take_until-lem test [] c ys a e = rw e refl
take_until-lem test (k ∷ key) c ys a e = ground (arith, a.0, take_until-lem test key c ys a.1 e)

-- The value starts with a byte that does not separate.
abbrev Starts : List ℕ → ℕ → Type 0
Starts [] last = is_separator last ≡ false
Starts (v ∷ value) last = is_separator v ≡ false

drop_while-value :
    (separators value : List ℕ) (last : ℕ)
    → All (λ c. is_separator c) separators
    → Starts value last
    → drop_while (λ c. is_separator c) (separators ++ (value ++ (last ∷ []))) ≡ value ++ (last ∷ [])
drop_while-value separators [] last a s =
    drop_while-All (λ c. is_separator c) separators last [] a s
drop_while-value separators (v ∷ value) last a s =
    drop_while-All (λ c. is_separator c) separators v (value ++ (last ∷ [])) a s

-- A line with a key and a value, as it may stand in the file: white space around, white space or `=`
-- between the two. The key has none of these in it and does not start with `#`; the value starts with
-- none of these and ends in a byte that is no white space.
pub record IsSetting (lead : List ℕ) (k : ℕ) (key : List ℕ) (s : ℕ) (separators value : List ℕ)
    (last : ℕ) (trail : List ℕ) : Type 0 where
  pub lead_blank : All (λ c. is_space c) lead
  pub key_first : is_separator k ≡ false
  pub no_comment : (k == b'#') ≡ false
  pub key_rest : All (λ c. not (is_separator c)) key
  pub separates : is_separator s ≡ true
  pub all_separate : All (λ c. is_separator c) separators
  pub value_first : Starts value last
  pub value_last : is_space last ≡ false
  pub trail_blank : All (λ c. is_space c) trail

abbrev pub line_of : List ℕ → ℕ → List ℕ → ℕ → List ℕ → List ℕ → List ℕ → List ℕ
line_of lead k key s separators value end =
    lead ++ (k ∷ (key ++ (s ∷ (separators ++ (value ++ end)))))

line_of-append :
    (lead : List ℕ) (k : ℕ) (key : List ℕ) (s : ℕ) (separators value end : List ℕ)
    → line_of lead k key s separators value end
      ≡ (lead ++ (k ∷ (key ++ (s ∷ (separators ++ value))))) ++ end
line_of-append lead k key s separators value end = simp append_assoc refl

-- A line with a key and a value, as `IsSetting` has it, is parsed to its key and its value, without an
-- access outside the buffer.
pub parse_line-line_of :
    (lead : List ℕ) (k : ℕ) (key : List ℕ) (s : ℕ) (separators value : List ℕ) (last : ℕ)
    (trail : List ℕ)
    → IsSetting lead k key s separators value last trail
    → parse_line (line_of lead k key s separators value (last ∷ trail))
      ≡ done (some (k ∷ key, some (value ++ (last ∷ []))))
unfolding parse_line
parse_line-line_of lead k key s separators value last trail h =
    let front = lead ++ (k ∷ (key ++ (s ∷ (separators ++ value)))) in
    let rest = separators ++ (value ++ (last ∷ [])) in
    let trimmed : trim_from (length (front ++ (last ∷ trail))) (front ++ (last ∷ trail))
        ≡ done (line_of lead k key s separators value (last ∷ [])) =
      trimmed_lem front last trail h.value_last h.trail_blank
      ∙ ap (λ t. done t) (sym (line_of-append lead k key s separators value (last ∷ []))) in
    let black : is_space k ≡ false = ground (arith, h.key_first) in
    let behind : drop_while (λ c. not (is_separator c)) ((k ∷ key) ++ (s ∷ rest)) ≡ s ∷ rest =
      drop_while-All (λ c. not (is_separator c)) (k ∷ key) s rest
        (ground (arith, h.key_first), h.key_rest) (ground (arith, h.separates)) in
    let before : take_until (λ c. is_separator c) ((k ∷ key) ++ (s ∷ rest)) ≡ k ∷ key =
      take_until-lem (λ c. is_separator c) (k ∷ key) s rest
        (ground (arith, h.key_first), h.key_rest) h.separates in
    let valued = drop_while-value separators value last h.all_separate h.value_first in
    rw
      (
        line_of-append lead k key s separators value (last ∷ trail),
        trimmed,
        drop_while-All (λ c. is_space c) lead k (key ++ (s ∷ rest)) h.lead_blank black,
        h.no_comment,
        before,
        behind,
        valued,
      )
      refl
