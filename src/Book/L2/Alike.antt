-- ===== src/Book/L2/Alike.antt =====
-- Two books that stand for the same ladders are read alike.
use crossbook.Common.{ℕ, ◌≡◌, sym, ap, ap₂, ◌∙◌}
use crossbook.Common.{Bool, List, [], length, take, ◌++◌}
use crossbook.Types.{Side, bid, ask, Level}
use crossbook.Book.Visit.{SideImpl, IsSideImpl, visit, head?}
use crossbook.Book.L2
use crossbook.Book.L2.{L2Book}
use crossbook.Book.L2.Update.{IsBook, book_levels, side-IsValid}
use crossbook.Checksum.{crc_value, crc_update, crc_init, kraken_checksum}
use crossbook.Checksum.Payload.{kraken_checksum_payload_lem, tokens}

-- What can be read of a book is the same for both.
pub record IsReadAlike (I J : SideImpl) (b : L2Book I.State) (c : L2Book J.State) : Type 0 where
  pub size : (s : Side) → I.size (L2.side I b s) ≡ J.size (L2.side J c s)
  pub best : (s : Side) → L2.best I b s ≡ L2.best J c s
  pub top : (s : Side) (n : ℕ) → L2.top I b s n ≡ L2.top J c s n
  pub checksum : kraken_checksum I b ≡ kraken_checksum J c
  pub hash : L2.state_hash I b ≡ L2.state_hash J c

module _ (I J : SideImpl) (L : IsSideImpl I) (M : IsSideImpl J) where
  -- Both books are valid, and stand for the same ladders.
  pub record Agree (b : L2Book I.State) (c : L2Book J.State) : Type 0 where
    pub left : IsBook I L b
    pub right : IsBook J M c
    pub same : (s : Side) → book_levels I L b s ≡ book_levels J M c s

  for_each-alike :
      (b : L2Book I.State) (c : L2Book J.State) (s : Side) (A : Type 0) (f : A → Level → A × Bool)
      (a : A)
      → Agree b c
      → I.for_each A f (L2.side I b s) a ≡ J.for_each A f (L2.side J c s) a
  for_each-alike b c s A f a g =
      L.for_each-levels A f (L2.side I b s) a (side-IsValid I L b s g.left)
      ∙ ap (λ ls. visit f ls a) (g.same s)
      ∙ sym (M.for_each-levels A f (L2.side J c s) a (side-IsValid J M c s g.right))

  size-alike :
      (b : L2Book I.State) (c : L2Book J.State) (s : Side)
      → Agree b c
      → I.size (L2.side I b s) ≡ J.size (L2.side J c s)
  size-alike b c s g =
      L.size-levels (L2.side I b s) (side-IsValid I L b s g.left)
      ∙ ap length (g.same s)
      ∙ sym (M.size-levels (L2.side J c s) (side-IsValid J M c s g.right))

  best-alike :
      (b : L2Book I.State) (c : L2Book J.State) (s : Side)
      → Agree b c
      → L2.best I b s ≡ L2.best J c s
  unfolding L2.best
  best-alike b c s g =
      L.best-levels (L2.side I b s) (side-IsValid I L b s g.left)
      ∙ ap head? (g.same s)
      ∙ sym (M.best-levels (L2.side J c s) (side-IsValid J M c s g.right))

  hash_side-alike :
      (b : L2Book I.State) (c : L2Book J.State) (s : Side) (h : ℕ)
      → Agree b c
      → L2.hash_side I b s h ≡ L2.hash_side J c s h
  unfolding L2.hash_side
  hash_side-alike b c s h g =
      ap
        (λ n.
          I.for_each ℕ L2.mix_level (L2.side I b s)
            (L2.mix (L2.mix (L2.mix h (L2.side_tag s)) n) L2.hash_separator))
        (size-alike b c s g)
      ∙ for_each-alike b c s ℕ L2.mix_level
          (L2.mix (L2.mix (L2.mix h (L2.side_tag s)) (J.size (L2.side J c s))) L2.hash_separator) g

  pub Agree-IsReadAlike :
      (b : L2Book I.State) (c : L2Book J.State) → Agree b c → IsReadAlike I J b c
  unfolding L2.top L2.state_hash kraken_checksum
  Agree-IsReadAlike b c g = record {
    size = λ s. size-alike b c s g;
    best = λ s. best-alike b c s g;
    top = λ s n. for_each-alike b c s (List Level) (L2.take_level n) [] g;
    checksum =
        ap (λ buf. crc_value (crc_update crc_init buf))
          (kraken_checksum_payload_lem I L b g.left
            ∙ ap₂ (λ xs ys. tokens (take 10 xs) ++ tokens (take 10 ys)) (g.same ask) (g.same bid)
            ∙ sym (kraken_checksum_payload_lem J M c g.right));
    hash =
        ap (L2.hash_side I b ask) (hash_side-alike b c bid L2.hash_basis g)
        ∙ hash_side-alike b c ask (L2.hash_side J c bid L2.hash_basis) g;
  }
