-- ===== src/OrderBook/Matching.antt =====
-- The run of `match` on a valid book, and what it leaves.
use tiger_swap.Prelude.{ℕ, ◌+◌, ◌<◌, ◌≤◌, ◌≡◌, refl, List, [], ◌∷◌, arith, All, ◌∙◌, sym, subst}
use tiger_swap.OrderBook.Types.{Side, buy, sell, Order, Env, opposite_side}
use tiger_swap.OrderBook.Side.{Level, SideBook}
use tiger_swap.OrderBook.Book.{Book, side_for}
use tiger_swap.OrderBook.Match.{MatchState, start_match, run_match}
use tiger_swap.OrderBook.Invariant.{count_orders, SideOk}
use tiger_swap.OrderBook.Step.{put-elim, IsReplaced, Frame, Step, cancels, fills, part}
use tiger_swap.OrderBook.Runs.{SameTaker-refl, Reach, Reach-keeps, SameTaker, Step-SameTaker}
use tiger_swap.OrderBook.Fairness.{SameTaker-trans}
use tiger_swap.OrderBook.Loops.{MatchDone, match_loop-MatchDone}
use tiger_swap.OrderBook.Volume.{
  Step-SideOk, SideOk-Ordered, Counts, Step-Counts, Gains, Step-Gains, traded_units,
}

-- The price of every level of a side has the property.
abbrev pub Prices {ℓ} : (ℕ → Type ℓ) → List Level → Type ℓ
Prices Q ls = All (λ (l : Level). Q l.price_ticks) ls

-- Every ask is above every bid.
abbrev pub Apart : List Level → List Level → Type 0
Apart bids asks = Prices (λ a. Prices (λ b. b < a) bids) asks

pub record BookOk (b : Book) : Type 0 where
  pub bids : SideOk buy b.bids
  pub asks : SideOk sell b.asks
  pub counts : b.open_orders ≡ count_orders b.bids.levels + count_orders b.asks.levels
  pub apart : Apart b.bids.levels b.asks.levels

replaced-Prices {ℓ} :
    (Q : ℕ → Type ℓ) {s t : SideBook} (l l' : Level) (rest : List Level)
    → s.levels ≡ l ∷ rest
    → l'.price_ticks ≡ l.price_ticks
    → IsReplaced s t l' rest
    → Prices Q s.levels
    → Prices Q t.levels
replaced-Prices Q l l' rest e p r a =
    let a' = subst (Prices Q) e a in
    rw r.levels (put-elim (Prices Q) l' rest (λ _. a'.1) (λ _. (subst Q (sym p) a'.0, a'.1)))

Frame-trans : {s t u : MatchState} → Frame s t → Frame t u → Frame s u
Frame-trans a b = record {
  cfg = b.cfg ∙ a.cfg;
  bids = b.bids ∙ a.bids;
  asks = b.asks ∙ a.asks;
  last_price = b.last_price ∙ a.last_price;
}

-- A step keeps what holds of all prices, and brings in no price.
Step-Prices {ℓ} :
    (Q : ℕ → Type ℓ) {env : Env} (s t : MatchState)
    → Step env s t
    → Prices Q s.opposite.levels
    → Prices Q t.opposite.levels
Step-Prices Q s t (cancels l rest m os h w fr tk tr tp op n) a =
    replaced-Prices Q l _ rest h.levels refl op a
Step-Prices Q s t (fills l rest m os h x y fr tr op n) a =
    replaced-Prices Q l _ rest h.levels refl op a
Step-Prices Q s t (part l rest m m' os h x fr tr st op n) a =
    replaced-Prices Q l _ rest h.levels refl op a

Step-Frame :
    (s₀ : MatchState) {env : Env} (s t : MatchState) → Step env s t → Frame s₀ s → Frame s₀ t
Step-Frame s₀ s t (cancels l rest m os h w fr tk tr tp op n) a = Frame-trans a fr
Step-Frame s₀ s t (fills l rest m os h x y fr tr op n) a = Frame-trans a fr
Step-Frame s₀ s t (part l rest m m' os h x fr tr st op n) a = Frame-trans a fr

Step-SameTaker-from :
    (s₀ : MatchState) {env : Env} (s t : MatchState)
    → Step env s t
    → SameTaker s₀ s
    → SameTaker s₀ t
Step-SameTaker-from s₀ s t st g = SameTaker-trans s₀ g (Step-SameTaker s t st)

-- What a run of the loops from `s` to `t` keeps.
pub record Kept (kind : Side) (s t : MatchState) : Type 0 where
  pub frame : Frame s t
  pub same : SameTaker s t
  pub side_ok : SideOk kind t.opposite
  pub gains : Gains s.taker.filled_units t
  pub counts : (k : ℕ) → Counts k s → Counts k t

pub Reach-Prices {ℓ} :
    (Q : ℕ → Type ℓ) {env : Env} {s t : MatchState}
    → Reach env s t
    → Prices Q s.opposite.levels
    → Prices Q t.opposite.levels
Reach-Prices Q r a = Reach-keeps (λ u. Prices Q u.opposite.levels) (Step-Prices Q) r a

pub Reach-Kept :
    (kind : Side) {env : Env} {s t : MatchState}
    → Reach env s t
    → SideOk kind s.opposite
    → s.trades ≡ []
    → s.taker.filled_units ≤ s.taker.qty_units
    → Kept kind s t
unfolding traded_units
Reach-Kept kind {s = s} {t = t} r ok e le = record {
  frame =
      Reach-keeps (Frame s) (Step-Frame s) r
        (record { cfg = refl; bids = refl; asks = refl; last_price = refl });
  same = Reach-keeps (SameTaker s) (Step-SameTaker-from s) r (SameTaker-refl s);
  side_ok = Reach-keeps (λ u. SideOk kind u.opposite) (Step-SideOk kind) r ok;
  gains =
      Reach-keeps (Gains s.taker.filled_units) (Step-Gains s.taker.filled_units) r
        (record { gained = rw e (omega arith); within = le });
  counts = λ k c. Reach-keeps (Counts k) (Step-Counts k) r c;
}

pub run_match-MatchDone :
    (env : Env) (kind : Side) (b : Book) (o : Order)
    → SideOk kind (side_for b (opposite_side o.side))
    → MatchDone env (start_match b o) (run_match env b o)
unfolding run_match
run_match-MatchDone env kind b o ok =
    match_loop-MatchDone env kind _ (start_match b o) (SideOk-Ordered kind {s = start_match b o} ok)
      (omega arith)
