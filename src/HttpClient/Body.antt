-- ===== src/HttpClient/Body.antt =====
-- The limit on a response's body: `responseBody.Read` of pkg/http_client/http.go. What one call of
-- the underlying reader gives is the environment's choice.
use superform_go_utils.Prelude.{
  if-preserves, ℕ, zero, suc, ◌+◌, ◌-◌, ◌≤◌, ◌<◌, Bool, true, false, ◌&&◌, ◌||◌, not, List, [], ◌∷◌,
  ◌++◌, Option, none, some, Text, ltb, if◌then◌else◌, min, length, take, drop, ◌≡◌, refl, ap, sym,
  subst, ◌∙◌, arith, inl, inr, Bool-cases, length-append, length-take, take-append-drop,
}
use superform_go_utils.Prelude.Int.{ℤ, pos, negsuc}
use superform_go_utils.Prelude.Int64.{is_positive}
use mathlib.Core.List.{append-nil, append_assoc}

pub data ReadError : Type 0 where
  eof response_too_large : ReadError

-- One call: the buffer's length, how many bytes the underlying reader has ready, and whether it says
-- that the body has ended together with the last byte.
pub record ReadCall : Type 0 where
  pub buffer : ℕ
  pub ready : ℕ
  pub eager : Bool

-- `rest` is what the underlying reader still has, `handed` what the caller got.
pub record ResponseBody : Type 0 where
  pub limited : Bool
  pub remaining : ℤ
  pub rest : Text
  pub handed : Text
  pub read_error : Option ReadError

abbrev pub is_empty : Text → Bool
is_empty [] = true
is_empty (c ∷ cs) = false

-- The underlying reader's error, from what it gave and what it has left.
abbrev end_of : Bool → Text → Text → Option ReadError
end_of eager given left = if is_empty left && (eager || is_empty given) then some eof else none

-- The underlying `Read` into a buffer of that length.
unfoldable pub source_read : ℕ → ReadCall → Text → Text × Option ReadError × Text
source_read buffer call rest =
    let n = min buffer call.ready in
    (take n rest, end_of call.eager (take n rest) (drop n rest), drop n rest)

abbrev remaining_length : ℤ → ℕ
remaining_length (pos n) = n
remaining_length (negsuc n) = 0

abbrev less : ℤ → ℕ → ℤ
less (pos n) k = if ltb n k then negsuc (k - n - 1) else pos (n - k)
less (negsuc n) k = negsuc (n + k)

-- The probe behind the limit: a byte is an error.
abbrev probed : ResponseBody → Text × Option ReadError × Text → ResponseBody
probed b (given, e, left) = record b {
  rest = left;
  read_error = if is_empty given then e else some response_too_large;
}

abbrev took : ℤ → ResponseBody → Text × Option ReadError × Text → ResponseBody
took remaining b (given, e, left) = record b {
  remaining = remaining;
  rest = left;
  handed = b.handed ++ given;
  read_error = e;
}

unfoldable pub read : ReadCall → ResponseBody → ResponseBody
unfolding source_read
read call b =
    let within = min call.buffer (remaining_length b.remaining) in
    let given = source_read within call b.rest in
    if not b.limited
    then took b.remaining b (source_read call.buffer call b.rest)
    else if not (is_positive b.remaining)
    then probed b (source_read 1 call b.rest)
    else took (less b.remaining (length given.0)) b given

-- The body that `attempt` hands back.
unfoldable pub limit_body : ℤ → Text → ResponseBody
limit_body max_response_bytes body = record {
  limited = is_positive max_response_bytes;
  remaining = max_response_bytes;
  rest = body;
  handed = [];
  read_error = none;
}

-- A caller that reads until an error.
unfoldable pub read_all : List ReadCall → ResponseBody → ResponseBody
unfolding read
read_all [] b = b
read_all (call ∷ calls) b =
    let later = read_all calls (read call b) in elim b.read_error [ some e ↦ b | none ↦ later ]

-- A limited body that has been read without an error so far.
abbrev Sound : ℕ → Text → ResponseBody → Type 0
Sound limit body b =
    (b.limited ≡ true)
    × ((n : ℕ) × (b.remaining ≡ pos n) × (length b.handed + n ≡ limit))
    × (b.handed ++ b.rest ≡ body)

-- What the caller may have, with or without an error.
abbrev pub Bounded : ℕ → Text → ResponseBody → Type 0
Bounded limit body b =
    (length b.handed ≤ limit)
    × ((left : Text) × (b.handed ++ left ≡ body))
    × (b.read_error ≡ some eof → b.handed ≡ body)
    × (b.read_error ≡ some response_too_large → limit < length body)

abbrev Read : ℕ → Text → ResponseBody → Type 0
Read limit body b = (b.read_error ≡ none → Sound limit body b) × Bounded limit body b

-- What the underlying reader gives.
abbrev Given : ℕ → Text → Text × Option ReadError × Text → Type 0
Given buffer rest (given, e, left) =
    (given ++ left ≡ rest)
    × (length given ≤ buffer)
    × (e ≡ some eof → left ≡ [])
    × (¬ (e ≡ some response_too_large))

end_of-eof : (eager : Bool) (given left : Text) → end_of eager given left ≡ some eof → left ≡ []
end_of-eof eager given [] h = refl
end_of-eof eager given (c ∷ cs) h = absurd (ground arith)

end_of-small :
    (eager : Bool) (given left : Text) → ¬ (end_of eager given left ≡ some response_too_large)
end_of-small eager given [] h = elim (Bool-cases (eager || is_empty given)) [
  | inl ended ↦ absurd (ground (arith, ended))
  | inr more ↦ absurd (ground (arith, more))
]
end_of-small eager given (c ∷ cs) h = absurd (ground arith)

source_read-Given :
    (buffer : ℕ) (call : ReadCall) (rest : Text) → Given buffer rest (source_read buffer call rest)
unfolding source_read
source_read-Given buffer call rest =
    let n = min buffer call.ready in
    (
      take-append-drop n rest,
      omega (arith, length-take n rest),
      end_of-eof call.eager (take n rest) (drop n rest),
      end_of-small call.eager (take n rest) (drop n rest),
    )

less-within : (n k : ℕ) → k ≤ n → less (pos n) k ≡ pos (n - k)
less-within n k h = ground arith

took-Read :
    (limit n : ℕ) (body : Text) (b : ResponseBody) (given left : Text) (e : Option ReadError)
    → b.limited ≡ true
    → length b.handed + n ≡ limit
    → b.handed ++ b.rest ≡ body
    → Given n b.rest (given, e, left)
    → Read limit body (took (less (pos n) (length given)) b (given, e, left))
took-Read limit n body b given left e on sum joined (split, short, ended, small) =
    let whole : (b.handed ++ given) ++ left ≡ body =
      append_assoc b.handed given left ∙ ap (λ t. b.handed ++ t) split ∙ joined in
    let size = length-append b.handed given in
    (
      (λ fine.
          (on, (n - length given, less-within n (length given) short, omega (arith, size)), whole)),
      (
        omega (arith, size),
        (left, whole),
        (λ at_end.
            sym (append-nil (b.handed ++ given))
            ∙ ap (λ t. (b.handed ++ given) ++ t) (sym (ended at_end))
            ∙ whole),
        (λ large. absurd (small large)),
      ),
    )

probed-Read :
    (limit : ℕ) (body : Text) (b : ResponseBody) (given left : Text) (e : Option ReadError)
    → b.limited ≡ true
    → (b.remaining ≡ pos 0)
    → length b.handed ≡ limit
    → b.handed ++ b.rest ≡ body
    → Given 1 b.rest (given, e, left)
    → Read limit body (probed b (given, e, left))
probed-Read limit body b [] left e on none_left sum joined (split, short, ended, small) = (
  (λ fine. (on, (0, none_left, omega (arith, sum)), ap (λ t. b.handed ++ t) split ∙ joined)),
  (
    omega (arith, sum),
    (b.rest, joined),
    (λ at_end.
        sym (append-nil b.handed) ∙ ap (λ t. b.handed ++ t) (sym (ended at_end) ∙ split) ∙ joined),
    (λ large. absurd (small large)),
  ),
)
probed-Read limit body b (c ∷ cs) left e on none_left sum joined (split, short, ended, small) =
    let size : length (b.handed ++ ((c ∷ cs) ++ left)) ≡ length body =
      ap (λ t. length (b.handed ++ t)) split ∙ ap length joined in
    (
      (λ fine. absurd (ground arith)),
      (
        omega (arith, sum),
        (b.rest, joined),
        (λ at_end. absurd (ground arith)),
        (λ large. omega (arith, size, sum, length-append b.handed ((c ∷ cs) ++ left))),
      ),
    )

spent_lem : (n : ℕ) {b : Bool} → is_positive (pos n) ≡ b → not b ≡ true → n ≡ 0
spent_lem zero e h = refl
spent_lem (suc n) e h = absurd (ground arith)

positive-is_positive : (n : ℕ) → 0 < n → is_positive (pos n) ≡ true
positive-is_positive zero h = absurd (omega arith)
positive-is_positive (suc n) h = refl

read-Read :
    (limit : ℕ) (body : Text) (call : ReadCall) (b : ResponseBody)
    → Sound limit body b
    → Read limit body (read call b)
unfolding read
read-Read limit body call b (on, (n, remaining, sum), joined) =
    let within = min call.buffer (remaining_length b.remaining) in
    let size : remaining_length b.remaining ≡ n = ap remaining_length remaining in
    if-preserves (Read limit body) (not b.limited) _ _ (λ off. absurd (ground arith))
      (λ on'.
        if-preserves (Read limit body) (not (is_positive b.remaining)) _ _
          (λ spent.
            let (split, short, ended, small) = source_read-Given 1 call b.rest in
            let none_left : n ≡ 0 = spent_lem n (ap (λ r. is_positive r) (sym remaining)) spent in
            probed-Read limit body b _ _ _ on (remaining ∙ ap pos none_left)
              (omega (arith, sum, none_left)) joined (split, short, ended, small))
          (λ more.
            let (split, short, ended, small) = source_read-Given within call b.rest in
            let given = source_read within call b.rest in
            subst (λ r. Read limit body (took (less r (length given.0)) b given)) (sym remaining)
              (took-Read limit n body b _ _ _ on sum joined
                (split, omega (arith, short, size), ended, small))))

stops_or_goes_on :
    (P : ResponseBody → Type 0) (e : Option ReadError) (b later : ResponseBody)
    → P b
    → (e ≡ none → P later)
    → P (elim e [ some x ↦ b | none ↦ later ])
stops_or_goes_on P none b later stop go_on = go_on refl
stops_or_goes_on P (some e) b later stop go_on = stop

read_all-Bounded :
    (limit : ℕ) (body : Text) (calls : List ReadCall) (b : ResponseBody)
    → (b.read_error ≡ none → Sound limit body b)
    → Bounded limit body b
    → Bounded limit body (read_all calls b)
unfolding read_all
read_all-Bounded limit body [] b sound bounded = bounded
read_all-Bounded limit body (call ∷ calls) b sound bounded =
    stops_or_goes_on (Bounded limit body) b.read_error b _ bounded (λ fine.
      let (sound', bounded') = read-Read limit body call b (sound fine) in
      read_all-Bounded limit body calls (read call b) sound' bounded')

-- A caller that reads a limited body, however its reads are cut, never gets more bytes than the limit,
-- and gets them in order from the front. The end of the body is reported only when it has the whole
-- body, and the limit is reported as exceeded only when the body is longer.
pub read_all-limit_body :
    (limit : ℕ) (body : Text) (calls : List ReadCall)
    → 0 < limit
    → Bounded limit body (read_all calls (limit_body (pos limit) body))
unfolding limit_body
read_all-limit_body limit body calls positive =
    read_all-Bounded limit body calls (limit_body (pos limit) body)
      (λ fine. (positive-is_positive limit positive, (limit, refl, omega arith), refl))
      (
        omega arith,
        (body, refl),
        (λ at_end. absurd (ground arith)),
        (λ large. absurd (ground arith)),
      )
