-- ===== src/Classes/Thread/Words.antt =====
-- Words that are copied to memory and back.
use argon_rtos.Prelude.{
  ℕ, ◌+◌, ◌*◌, ◌≡◌, ◌≤◌, ◌<◌, refl, ◌∙◌, ap₂, List, [], ◌∷◌, length, update, arith,
}
use argon_rtos.Classes.Thread.{write_words, read_words}

-- Memory below the words and behind them is left alone.
pub write_words-below :
    (p q : ℕ) (ws : List ℕ) (memory : ℕ → ℕ) → q < p → write_words p ws memory q ≡ memory q
unfolding write_words
write_words-below p q [] memory l = refl
write_words-below p q (w ∷ ws) memory l =
    write_words-below (p + 4) q ws (update memory p w) (omega (arith, l)) ∙ ground arith

pub write_words-above :
    (p q : ℕ) (ws : List ℕ) (memory : ℕ → ℕ)
    → p + 4 * length ws ≤ q
    → write_words p ws memory q ≡ memory q
unfolding write_words
write_words-above p q [] memory l = refl
write_words-above p q (w ∷ ws) memory l =
    write_words-above (p + 4) q ws (update memory p w) (omega (arith, l)) ∙ ground arith

-- The words are read as they were written.
pub read_words-write_words :
    (p : ℕ) (ws : List ℕ) (memory : ℕ → ℕ) → read_words (length ws) p (write_words p ws memory) ≡ ws
unfolding read_words write_words
read_words-write_words p [] memory = refl
read_words-write_words p (w ∷ ws) memory =
    ap₂ (λ x xs. x ∷ xs)
      (write_words-below (p + 4) p ws (update memory p w) (omega arith) ∙ ground arith)
      (read_words-write_words (p + 4) ws (update memory p w))
