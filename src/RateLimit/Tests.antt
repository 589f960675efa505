-- ===== src/RateLimit/Tests.antt =====
-- A limiter of two requests in ten, and the theorems at runs of it.
use tiger_swap.Prelude.{◌≤◌, refl, [], ◌∷◌, length, arith}
use tiger_swap.RateLimit.{SlidingWindow, recent}
use tiger_swap.RateLimit.Window.{serve, sliding_window_limits}

abbrev limiter : SlidingWindow
limiter = record { requests = []; rate = 2; window = 10 }

sliding_window_limits_example :
    length (recent 10 14 (serve "ann" (14 ∷ 12 ∷ 7 ∷ 5 ∷ []) limiter).1) ≤ 2
sliding_window_limits_example =
    sliding_window_limits "ann" limiter (14 ∷ 12 ∷ 7 ∷ 5 ∷ []) 14 refl
      (omega arith, (omega arith, (omega arith, (omega arith, tt))))
