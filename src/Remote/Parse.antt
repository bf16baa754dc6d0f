-- ===== src/Remote/Parse.antt =====
-- The forms of `remote.connect` with a port.
use pimidi.Common.{
  ℕ, zero, suc, ◌+◌, ◌-◌, ◌^◌, ◌<◌, ◌≡◌, refl, ap, ◌∙◌, true, false, ◌||◌, List, [], ◌∷◌, ◌++◌, ltb,
  ◌==◌, if◌then◌else◌, length, length-append, get_or, take, drop, arith,
}
use pimidi.Common.Int.{pos}
use pimidi.Common.Memory.{get_or-at, done}
use pimidi.Common.Scan.{All, get_or_before, get_or_behind, take_front, drop_behind}
use pimidi.Common.Strings.{is_space}
use pimidi.Config.{drop_while}
use pimidi.Config.Values.{is_digit, number, to_number}
use pimidi.Remote.{
  direct, search_back, skip_bracket, no_port, address_of, bracketed, with_port, parse_target,
}

-- Neither a digit nor the NUL ends the search.
digit_passed :
    (ds : List ℕ) (m : ℕ)
    → All (λ c. is_digit c) ds
    → (get_or ds m 0 == b']' || get_or ds m 0 == b':') ≡ false
digit_passed [] m a = refl
digit_passed (d ∷ ds) zero a = ground (arith, a.0)
digit_passed (d ∷ ds) (suc m) a = digit_passed ds m a.1

search_lem :
    (m : ℕ) (x : ℕ) (xs ds : List ℕ)
    → All (λ c. is_digit c) ds
    → search_back (suc (length xs + m)) ((x ∷ xs) ++ (b':' ∷ ds)) ≡ suc (length xs)
unfolding search_back
search_lem zero x xs ds a =
    let at : length xs + 0 ≡ length xs = omega arith in rw (at, get_or_before (x ∷ xs) ds b':') refl
search_lem (suc m) x xs ds a =
    let at : length xs + suc m ≡ suc (length xs + m) = omega arith in
    let byte : get_or ((x ∷ xs) ++ (b':' ∷ ds)) (suc (suc (length xs + m))) 0 ≡ get_or ds m 0 =
      get_or-at ((x ∷ xs) ++ (b':' ∷ ds)) (suc (suc (length xs + m))) (suc (suc (length xs) + m))
        (omega arith)
      ∙ get_or_behind (x ∷ xs) ds b':' m in
    rw (at, byte, digit_passed ds m a) (search_lem m x xs ds a)

number_read :
    (d : ℕ) (ds : List ℕ)
    → is_digit d ≡ true
    → number 0 (d ∷ ds) < 2 ^ 31
    → to_number 31 (d ∷ ds) ≡ done (pos (number 0 (d ∷ ds)))
unfolding to_number drop_while is_space
number_read d ds e h =
    let dark : is_space d ≡ false = ground (arith, e) in
    let minus : (d == b'-') ≡ false = ground (arith, e) in
    let plus : (d == b'+') ≡ false = ground (arith, e) in
    let inside : ltb (number 0 (d ∷ ds)) (2 ^ 31) ≡ true = ground (arith, h) in
    rw (to_number, dark, minus, plus, inside) refl

parse_colon :
    (x : ℕ) (xs : List ℕ) (d : ℕ) (ds : List ℕ)
    → All (λ c. is_digit c) (d ∷ ds)
    → number 0 (d ∷ ds) < 2 ^ 31
    → parse_target ((x ∷ xs) ++ (b':' ∷ d ∷ ds))
      ≡ done (with_port (x ∷ xs) (length xs) (pos (number 0 (d ∷ ds))))
unfolding parse_target
parse_colon x xs d ds a h =
    let s = (x ∷ xs) ++ (b':' ∷ d ∷ ds) in
    let size : length s ≡ suc (length xs + suc (suc (length ds))) =
      omega (arith, length-append (x ∷ xs) (b':' ∷ d ∷ ds)) in
    let found : search_back (length s) s ≡ suc (length xs) =
      ap (λ n. search_back n s) size ∙ search_lem (suc (suc (length ds))) x xs (d ∷ ds) a in
    let colon : get_or s (suc (length xs)) 0 ≡ b':' = get_or_before (x ∷ xs) (d ∷ ds) b':' in
    let behind : drop (suc (suc (length xs))) s ≡ d ∷ ds = drop_behind (x ∷ xs) (d ∷ ds) b':' in
    let before : take (suc (length xs)) s ≡ x ∷ xs = take_front (x ∷ xs) (b':' ∷ d ∷ ds) in
    let behind_it : (suc (length xs) == 0) ≡ false = ground arith in
    let last : suc (length xs) - 1 ≡ length xs = omega arith in
    rw (parse_target, found, colon, behind, number_read d ds a.0 h, before, behind_it, last) refl

-- An address and a port, as `remote.connect` has them: a byte of the address at least, whose last one
-- is no bracket, a colon and the digits of a port other than 0 are read as this address and this port.
-- The address may have colons in it. The port fits an `int`.
parse_target-address :
    (x : ℕ) (xs : List ℕ) (d : ℕ) (ds : List ℕ)
    → (get_or (x ∷ xs) (length xs) 0 == b']') ≡ false
    → All (λ c. is_digit c) (d ∷ ds)
    → 0 < number 0 (d ∷ ds)
    → number 0 (d ∷ ds) < 2 ^ 31
    → parse_target ((x ∷ xs) ++ (b':' ∷ d ∷ ds)) ≡ done (direct (x ∷ xs) (pos (number 0 (d ∷ ds))))
parse_target-address x xs d ds e a l h =
    let given : (number 0 (d ∷ ds) == 0) ≡ false = ground (arith, l) in
    parse_colon x xs d ds a h
    ∙ ap
        (λ b. done (
          if b
          then no_port
          else direct (address_of (x ∷ xs) (length xs)) (pos (number 0 (d ∷ ds)))))
        given
    ∙ ap
        (λ b.
          done (
            direct (if b then bracketed (x ∷ xs) (length xs) else x ∷ xs)
              (pos (number 0 (d ∷ ds)))))
        e

-- An address in brackets with a port is read as the address without the brackets and the port. The
-- address is not empty; the port is not 0, and fits an `int`.
pub parse_target-bracketed :
    (a : ℕ) (address : List ℕ) (d : ℕ) (ds : List ℕ)
    → All (λ c. is_digit c) (d ∷ ds)
    → 0 < number 0 (d ∷ ds)
    → number 0 (d ∷ ds) < 2 ^ 31
    → parse_target ((b'[' ∷ ((a ∷ address) ++ (b']' ∷ []))) ++ (b':' ∷ d ∷ ds))
      ≡ done (direct (a ∷ address) (pos (number 0 (d ∷ ds))))
parse_target-bracketed a address d ds k l h =
    let port = number 0 (d ∷ ds) in
    let front = b'[' ∷ a ∷ address in
    let whole = front ++ (b']' ∷ []) in
    let n = suc (suc (length address)) in
    let given : (port == 0) ≡ false = ground (arith, l) in
    let size : length ((a ∷ address) ++ (b']' ∷ [])) ≡ n =
      omega (arith, length-append (a ∷ address) (b']' ∷ [])) in
    let bracket : get_or whole n 0 ≡ b']' = get_or_before front [] b']' in
    let longer : (1 == n) ≡ false = ground arith in
    let inner : bracketed whole n ≡ a ∷ address =
      ap (λ cut. if skip_bracket n cut 0 == n then cut else drop (skip_bracket n cut 0) cut)
        (take_front front (b']' ∷ []))
      ∙ ap (λ b. if b then front else a ∷ address) longer in
    parse_colon b'[' ((a ∷ address) ++ (b']' ∷ [])) d ds k h
    ∙ ap
        (λ b. done (
          if b
          then no_port
          else direct (address_of whole (length ((a ∷ address) ++ (b']' ∷ [])))) (pos port)))
        given
    ∙ ap (λ i. done (direct (address_of whole i) (pos port))) size
    ∙ ap (λ c. done (direct (if c == b']' then bracketed whole n else whole) (pos port))) bracket
    ∙ ap (λ t. done (direct t (pos port))) inner
