-- ===== src/Shield/State/Pruning.antt =====
-- Windows longer than 24 hours, once the state prunes its entries.
use phalnx.Base.{
  ℕ, ◌+◌, ◌-◌, ◌≤◌, ◌≡◌, refl, ap, Bool, ◌&&◌, List, [], ◌∷◌, String, length, length-append,
  filter_by, sum_by, arith,
}
use phalnx.Core.Policies.{day_ms}
use phalnx.Core.State.{SpendEntry}
use phalnx.Shield.State.{
  ShieldState, get_spend_in_window, record_spend, prune, is_since, amount_of, prune_threshold,
}
use phalnx.Shield.State.Laws.{appended, sum_appended, in_window, counted}

-- Filtering twice is filtering by both tests.
filter_twice {ℓ} :
    {A : Type ℓ} (p q r : A → Bool) (xs : List A)
    → ((a : A) → (p a && q a) ≡ r a)
    → filter_by p (filter_by q xs) ≡ filter_by r xs
filter_twice p q r [] h = refl
filter_twice p q r (x ∷ xs) h = ground (arith, h x, filter_twice p q r xs h)

both_windows :
    (mint : String) (c d : ℕ) (e : SpendEntry)
    → c ≤ d
    → (in_window mint c e && is_since d e) ≡ in_window mint d e
both_windows mint c d e h = ground arith

-- With 10000 entries held, recording a spend cuts every window that is longer than 24 hours down to
-- 24 hours: what it then holds is what the window of 24 hours held, and the new spend.
pub long_window_collapses :
    (mint mint' : String) (amount now window_ms : ℕ) (s : ShieldState)
    → day_ms ≤ window_ms
    → prune_threshold ≤ length s.spend_entries
    → get_spend_in_window mint' window_ms now (record_spend mint amount now s)
      ≡ get_spend_in_window mint' day_ms now s + counted mint amount now mint' day_ms now
unfolding get_spend_in_window record_spend prune appended
long_window_collapses mint mint' amount now window_ms s long many =
    let new : List SpendEntry = record { mint = mint; amount = amount; timestamp = now } ∷ [] in
    ground (
      arith,
      length-append s.spend_entries new,
      sum_appended mint mint' amount now now day_ms s,
      ap (sum_by amount_of) (
          filter_twice (in_window mint' (now - window_ms)) (is_since (now - day_ms))
            (in_window mint' (now - day_ms)) (appended mint mint' amount now now day_ms s)
            (λ e. both_windows mint' (now - window_ms) (now - day_ms) e (omega arith))),
    )
