-- ===== src/TcpSocket/Line.antt =====
-- src/TcpSocket.cpp: TcpSocket::readLine on a connected socket, over the calls of recv.
use ucxx.Base.{
  ℕ, suc, ◌+◌, ◌≤◌, ◌<◌, ◌≡◌, refl, List, [], ◌∷◌, ◌++◌, append-nil, append_assoc, Bool, true,
  false, ◌&&◌, not, ltb, lt→ltb, ltb→lt, subst, ap, ◌==◌, if◌then◌else◌, length, length-append, All,
  All-append, arith, inl, inr, Bool-cases,
}

-- How recv(sock, &c, 1, 0) comes back: with a character, with 0 at the end of the stream, or with
-- -1.
pub data Recv : Type 0 where
  got : ℕ → Recv
  eof error : Recv

-- What the loop ends in, with the calls that it has not made. `reading`: no call has ended it.
pub data Line : Type 0 where
  line error_line : List ℕ → List Recv → Line
  reading : List ℕ → Line

abbrev pub is_newline : ℕ → Bool
is_newline c = c == b'\n'

abbrev pub is_kept : ℕ → Bool
is_kept c = not (c == b'\n') && not (c == b'\r')

-- The condition of the loop.
abbrev again : ℕ → ℕ → List ℕ → Bool
again size c text = not (is_newline c) && ltb (length text) size

abbrev add : List ℕ → ℕ → List ℕ
add text d = if is_kept d then text ++ d ∷ [] else text

-- The rounds from the next call on; `c` is the variable, and `length` the length of the text.
unfoldable pub read_line : ℕ → ℕ → List ℕ → List Recv → Line
read_line size c text [] = reading text
read_line size c text (error ∷ calls) = error_line text calls
read_line size c text (eof ∷ calls) =
    let rest = read_line size c text calls in if again size c text then rest else line text calls
read_line size c text (got d ∷ calls) =
    let rest = read_line size d (add text d) calls in
    if again size d (add text d) then rest else line (add text d) calls

-- What a sequence of calls without an error and without a newline brings.
abbrev pub kept : List Recv → List ℕ
kept [] = []
kept (got d ∷ calls) = if is_kept d then d ∷ kept calls else kept calls
kept (_ ∷ calls) = kept calls

abbrev pub IsQuiet : Recv → Type 0
IsQuiet (got d) = is_newline d ≡ false
IsQuiet eof = Unit {0}
IsQuiet error = ⊥

add-kept :
    (text : List ℕ) (d : ℕ) (calls : List Recv)
    → add text d ++ kept calls ≡ text ++ kept (got d ∷ calls)
add-kept text d calls = elim (Bool-cases (is_kept d)) [
  | inl keep ↦ rw (keep, kept, add) (append_assoc text (d ∷ []) (kept calls))
  | inr drop ↦ rw (drop, kept, add) refl
]

abbrev last_char : ℕ → List Recv → ℕ
last_char c [] = c
last_char c (got d ∷ calls) = last_char d calls
last_char c (_ ∷ calls) = last_char c calls

again-lem :
    (size c : ℕ) (text : List ℕ)
    → is_newline c ≡ false
    → length text < size
    → again size c text ≡ true
again-lem size c text open_line short = rw (open_line, again) (lt→ltb (length text) size short)

module _ (size : ℕ) (rest : List Recv) where
  quiet-read_line :
      (calls : List Recv) (c : ℕ) (text : List ℕ)
      → is_newline c ≡ false
      → All IsQuiet calls
      → length text + length (kept calls) < size
      → read_line size c text (calls ++ rest)
        ≡ read_line size (last_char c calls) (text ++ kept calls) rest
  unfolding read_line
  quiet-read_line [] c text open_line quiet short = rw (append-nil text) refl
  quiet-read_line (eof ∷ calls) c text open_line (_, quiet) short =
      rw
        (
          again-lem size c text open_line (omega arith),
          quiet-read_line calls c text open_line quiet short,
        )
        refl
  quiet-read_line (error ∷ calls) c text open_line (bad, _) short = absurd bad
  quiet-read_line (got d ∷ calls) c text open_line (d_quiet, quiet) short =
      let sum : length (add text d) + length (kept calls)
          ≡ length text + length (kept (got d ∷ calls)) =
        omega (
          arith,
          length-append (add text d) (kept calls),
          length-append text (kept (got d ∷ calls)),
          ap length (add-kept text d calls),
        ) in
      rw
        (
          again-lem size d (add text d) d_quiet (omega arith),
          quiet-read_line calls d (add text d) d_quiet quiet (omega arith),
          add-kept text d calls,
        )
        refl

last_char-quiet :
    (c : ℕ) (calls : List Recv)
    → is_newline c ≡ false
    → All IsQuiet calls
    → is_newline (last_char c calls) ≡ false
last_char-quiet c [] h quiet = h
last_char-quiet c (got d ∷ calls) h (d_quiet, quiet) = last_char-quiet d calls d_quiet quiet
last_char-quiet c (eof ∷ calls) h (_, quiet) = last_char-quiet c calls h quiet
last_char-quiet c (error ∷ calls) h (bad, _) = absurd bad

-- As long as the text is shorter than `size` characters, readLine reads up to a newline, which it
-- takes and drops with all carriage returns, and no call further; an error ends it with what has
-- been read. Until then it goes on, also at the end of the stream: no number of calls ends it.
pub read_line_lem :
    (size : ℕ) (calls rest : List Recv)
    → All IsQuiet calls
    → length (kept calls) < size
    → (read_line size 0 [] (calls ++ got b'\n' ∷ rest) ≡ line (kept calls) rest)
      × (read_line size 0 [] (calls ++ error ∷ rest) ≡ error_line (kept calls) rest)
      × (read_line size 0 [] calls ≡ reading (kept calls))
unfolding read_line
read_line_lem size calls rest quiet short =
    let go =
      λ (behind : List Recv). quiet-read_line size behind calls 0 [] refl quiet (omega arith) in
    (
      go (got b'\n' ∷ rest),
      go (error ∷ rest),
      subst (λ l. read_line size 0 [] l ≡ reading (kept calls)) (append-nil calls) (go []),
    )

abbrev pub text_of : Line → List ℕ
text_of (line text calls) = text
text_of (error_line text calls) = text
text_of (reading text) = text

abbrev pub limit : ℕ → ℕ
limit size = if size == 0 then 1 else size

add-kept_only :
    (text : List ℕ) (d : ℕ)
    → All (λ c. is_kept c ≡ true) text
    → All (λ c. is_kept c ≡ true) (add text d)
add-kept_only text d h = elim (Bool-cases (is_kept d)) [
  | inl keep ↦ rw (keep, add) (All-append (λ c. is_kept c ≡ true) text (d ∷ []) h (keep, tt))
  | inr drop ↦ rw (drop, add) h
]

add-length : (text : List ℕ) (d : ℕ) → length (add text d) ≤ suc (length text)
add-length text d = elim (Bool-cases (is_kept d)) [
  | inl keep ↦ rw (keep, add) (omega (arith, length-append text (d ∷ [])))
  | inr drop ↦ rw (drop, add) (omega arith)
]

again-limit : (size c : ℕ) (text : List ℕ) → again size c text ≡ true → length text < limit size
again-limit size c text more = ground (arith, ltb→lt (length text) size)

IsLine : ℕ → List ℕ → Type 0
IsLine size text = (length text ≤ limit size) × All (λ c. is_kept c ≡ true) text

text-IsLine :
    (size c : ℕ) (text : List ℕ) (calls : List Recv)
    → length text < limit size
    → All (λ c. is_kept c ≡ true) text
    → IsLine size (text_of (read_line size c text calls))
unfolding read_line IsLine
text-IsLine size c text [] short only = (omega arith, only)
text-IsLine size c text (error ∷ calls) short only = (omega arith, only)
text-IsLine size c text (eof ∷ calls) short only = elim (Bool-cases (again size c text)) [
  | inl more ↦ rw (more) (text-IsLine size c text calls short only)
  | inr ends ↦ rw (ends) (omega arith, only)
]
text-IsLine size c text (got d ∷ calls) short only = elim (Bool-cases (again size d (add text d))) [
  | inl more ↦ rw (more) (
      text-IsLine size d (add text d) calls (again-limit size d (add text d) more)
        (add-kept_only text d only))
  | inr ends ↦ rw (ends) (omega (arith, add-length text d), add-kept_only text d only)
]

-- Whatever arrives, the text that readLine has collected is never longer than `size`, or than one
-- character if `size` is 0, and has no newline and no carriage return.
pub read_line_bound :
    (size : ℕ) (calls : List Recv)
    → (length (text_of (read_line size 0 [] calls)) ≤ limit size)
      × All (λ c. is_kept c ≡ true) (text_of (read_line size 0 [] calls))
unfolding IsLine
read_line_bound size calls = text-IsLine size 0 [] calls (ground arith) tt
