-- ===== src/Stratum/Lines/Frames.antt =====
-- libpoolprotocols/stratum/EthStratumClient.cpp: the lines of a connection do not depend on how its
-- text is cut into transmissions.
use firominer.Base.{
  ℕ, zero, suc, ◌≤◌, ◌<◌, ◌≡◌, refl, ap, sym, ◌∙◌, arith, Option, none, some, List, [],
}
use firominer.Base.{◌∷◌, ◌++◌, length, ◌==◌, false, Bool-cases, Option-cases, inl, inr}
use firominer.Stratum.Lines.{newline, next_line, before, handle_line, receive_lines, receive}
use firominer.Stratum.Lines.{receive_all, feed}
use mathlib.Core.List.{append_assoc, append-nil}

abbrev pub concat : List (List ℕ) → List ℕ
concat [] = []
concat (chunk ∷ chunks) = chunk ++ concat chunks

next_line-shorter :
    (text line rest : List ℕ) → next_line text ≡ some (line, rest) → length rest < length text
unfolding next_line
next_line-shorter [] line rest e = absurd (ground arith)
next_line-shorter (c ∷ cs) line rest e = elim (Option-cases (next_line cs)) [
  | inl none_left ↦ ground (arith, e, none_left)
  | inr ((l, r), found) ↦ ground (arith, e, found, next_line-shorter cs l r found)
]

next_line-append :
    (line : List ℕ) (c : ℕ)
    → next_line line ≡ none
    → (c == newline) ≡ false
    → next_line (line ++ c ∷ []) ≡ none
unfolding next_line
next_line-append [] c h e = rw e refl
next_line-append (x ∷ xs) c h e = elim (Bool-cases (x == newline)) [
  | inl b ↦ absurd (ground (arith, h, b))
  | inr b ↦ elim (Option-cases (next_line xs)) [
    | inl n ↦ ground (arith, next_line-append xs c n e, b)
    | inr ((l, r), n) ↦ absurd (ground (arith, h, b, n))
  ]
]

module _ {S : Type 0} (handle : List ℕ → S → S) where
  -- What a text does after a part of a line.
  abbrev ended : List ℕ → List ℕ → S → Option (List ℕ × List ℕ) → List ℕ × S
  ended line text s none = (line ++ text, s)
  ended line text s (some (l, rest)) = feed handle [] rest (handle_line handle (line ++ l) s)

  ended-before :
      (line : List ℕ) (c : ℕ) (cs : List ℕ) (s : S) (found : Option (List ℕ × List ℕ))
      → ended (line ++ c ∷ []) cs s found ≡ ended line (c ∷ cs) s (before c found)
  ended-before line c cs s none = ap (λ l. (l, s)) (append_assoc line (c ∷ []) cs)
  ended-before line c cs s (some (l, rest)) =
      ap (λ x. feed handle [] rest (handle_line handle x s)) (append_assoc line (c ∷ []) l)

  feed-next_line :
      (line text : List ℕ) (s : S) → feed handle line text s ≡ ended line text s (next_line text)
  unfolding feed next_line
  feed-next_line line [] s = ap (λ l. (l, s)) (sym (append-nil line))
  feed-next_line line (c ∷ cs) s = elim (Bool-cases (c == newline)) [
    | inl e ↦ rw e (ap (λ l. feed handle [] cs (handle_line handle l s)) (sym (append-nil line)))
    | inr e ↦ rw e (feed-next_line (line ++ c ∷ []) cs s ∙ ended-before line c cs s (next_line cs))
  ]

  feed-append :
      (line xs ys : List ℕ) (s : S)
      → feed handle line (xs ++ ys) s
        ≡ (let (line', s') = feed handle line xs s in feed handle line' ys s')
  unfolding feed
  feed-append line [] ys s = refl
  feed-append line (c ∷ cs) ys s = elim (Bool-cases (c == newline)) [
    | inl e ↦ rw e (feed-append [] cs ys (handle_line handle line s))
    | inr e ↦ rw e (feed-append (line ++ c ∷ []) cs ys s)
  ]

  abbrev looped : ℕ → List ℕ → S → Option (List ℕ × List ℕ) → List ℕ × S
  looped fuel text s none = (text, s)
  looped fuel text s (some (line, rest)) =
      receive_lines handle fuel rest (handle_line handle line s)

  -- Enough fuel for the loop is the length of its text.
  pub receive_lines-feed :
      (fuel : ℕ) (text : List ℕ) (s : S)
      → length text ≤ fuel
      → receive_lines handle fuel text s ≡ feed handle [] text s
  receive_lines-feed zero [] s h = unfold receive_lines in sym (feed-next_line [] [] s)
  receive_lines-feed zero (c ∷ cs) s h = absurd (omega arith)
  receive_lines-feed (suc fuel) text s h =
      let by_line : receive_lines handle (suc fuel) text s ≡ looped fuel text s (next_line text) =
        unfold receive_lines in refl in
      by_line
      ∙ in_step (receive_lines-feed fuel) (next_line text) refl
      ∙ sym (feed-next_line [] text s)
    where
      in_step :
          ((rest : List ℕ) (s : S)
            → length rest ≤ fuel
            → receive_lines handle fuel rest s ≡ feed handle [] rest s)
          → (found : Option (List ℕ × List ℕ)) → next_line text ≡ found
          → looped fuel text s found ≡ ended [] text s found
      in_step again none e = refl
      in_step again (some (line, rest)) e =
          again rest (handle_line handle line s) (omega (arith, next_line-shorter text line rest e))

  -- What is left has no line.
  pub feed_rest :
      (line text : List ℕ) (s : S)
      → next_line line ≡ none
      → next_line (feed handle line text s).0 ≡ none
  unfolding feed
  feed_rest line [] s h = h
  feed_rest line (c ∷ cs) s h = elim (Bool-cases (c == newline)) [
    | inl e ↦ rw e (feed_rest [] cs (handle_line handle line s) (unfold next_line in refl))
    | inr e ↦ rw e (feed_rest (line ++ c ∷ []) cs s (next_line-append line c h e))
  ]

  receive-feed :
      (chunk message : List ℕ) (s : S)
      → next_line message ≡ none
      → receive handle chunk (message, s) ≡ feed handle message chunk s
  unfolding receive
  receive-feed chunk message s h =
      receive_lines-feed (length (message ++ chunk)) (message ++ chunk) s (omega arith)
      ∙ feed-append [] message chunk s
      ∙ ap (λ r. feed handle r.0 chunk r.1)
          (feed-next_line [] message s ∙ ap (ended [] message s) h)

  receive_all-feed :
      (chunks : List (List ℕ)) (message : List ℕ) (s : S)
      → next_line message ≡ none
      → receive_all handle chunks (message, s) ≡ feed handle message (concat chunks) s
  unfolding receive_all
  receive_all-feed [] message s h = unfold feed in refl
  receive_all-feed (chunk ∷ chunks) message s h =
      let (message', s') = feed handle message chunk s in
      ap (receive_all handle chunks) (receive-feed chunk message s h)
      ∙ receive_all-feed chunks message' s' (feed_rest message chunk s h)
      ∙ sym (feed-append message chunk (concat chunks) s)

  -- Transmissions that arrive after text without a line break leave the same text, and the same
  -- state after the same lines, as one transmission of all their text; and this is what the text
  -- gives one character at a time.
  pub receive_all-receive :
      (chunks : List (List ℕ)) (message : List ℕ) (s : S)
      → next_line message ≡ none
      → (receive_all handle chunks (message, s) ≡ receive handle (concat chunks) (message, s))
        × (receive_all handle chunks (message, s) ≡ feed handle message (concat chunks) s)
  receive_all-receive chunks message s h =
      let all = receive_all-feed chunks message s h in
      (all ∙ sym (receive-feed (concat chunks) message s h), all)
