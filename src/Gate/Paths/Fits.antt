-- ===== src/Gate/Paths/Fits.antt =====
-- gate/src/main.rs: in every state that the gate comes to, the rest of each task is fit for what its
-- connection holds.
use xddp.Prelude.{ℕ, List, [], ◌∷◌, ◌++◌, Option, none, some, Bool}
use xddp.Prelude.Float.{Float}
use xddp.Net.{IpNets}
use xddp.Config.File.{Config}
use xddp.Cache.Status.{StatusCache}
use xddp.Limiter.Address.{IpAddr}
use xddp.Runtime.{Wire}
use xddp.Gate.{State, unwind, Live}
use xddp.Gate.Guards.{After, limiter_of, resume}
use xddp.Gate.Perform.{act}
use xddp.Gate.World.{
  World, back, after_step, Step, accepts, fails_to_accept, acts, aborts, maintains, watches,
  starts_poll, skips_poll, ends_poll, aborts_poll, Reach, starts, steps,
}
use xddp.Gate.Tickets.{tickets, with_ticket, Limited, with_metrics-Limited}
use xddp.Gate.Tickets.Reached.{Counted, reached-Counted, tickets-middle}
use xddp.Gate.Paths.{unwinds}
use xddp.Gate.Paths.Handled.{accept_client-IsFit}
use xddp.Gate.Paths.Kept.{FitNow, FitAfter, refused-rejected}
use xddp.Gate.Paths.Calls.{Rejecting, act-FitAfter}

unfoldable pub AllFit : List Live → Type 0
AllFit [] = Unit {0}
AllFit (c ∷ cs) = FitNow (some c) × AllFit cs

pub AllFit-at :
    (before : List Live) (c : Live) (after : List Live)
    → AllFit (before ++ c ∷ after)
    → FitNow (some c)
unfolding AllFit
AllFit-at [] c after h = h.0
AllFit-at (b ∷ before) c after h = AllFit-at before c after h.1

AllFit-replaced :
    (before : List Live) (c : Live) (c' : Option Live) (after : List Live)
    → AllFit (before ++ c ∷ after)
    → FitNow c'
    → AllFit (before ++ back c' after)
unfolding AllFit
AllFit-replaced [] c none after h fit = h.1
AllFit-replaced [] c (some c') after h fit = (fit, h.1)
AllFit-replaced (b ∷ before) c c' after h fit = (h.0, AllFit-replaced before c c' after h.1 fit)

module _ (fl : Float) (nets : IpNets) (parse : List ℕ → Option (Wire nets.IpNet)) {V : Type 0}
    (cfg : Config fl.F64 nets.IpNet V) where
  open fl use {F64}
  open nets use {IpNet}

  after_step-AllFit :
      (before : List Live) (c : Live) (after : List Live) (v : After F64 IpNet V) (polling : Bool)
      → AllFit (before ++ c ∷ after)
      → FitAfter v
      → AllFit (after_step fl nets parse v before after polling).live
  after_step-AllFit before c after (s, c') polling h fit = AllFit-replaced before c c' after h fit

  counted-Rejecting :
      (s : State F64 IpNet V) (before : List Live) (c : Live) (after : List Live)
      → Limited cfg.limits s.limiter (tickets (before ++ c ∷ after))
      → Rejecting fl nets parse s c.ticket
  counted-Rejecting s before c after h t e =
      let split = tickets-middle before (some c) after in
      let mine : Limited cfg.limits s.limiter
          (tickets before ++ with_ticket c.ticket (tickets after)) =
        rw split at h in
      let own : Limited cfg.limits s.limiter (tickets before ++ t ∷ tickets after) = rw e at mine in
      refused-rejected fl (limiter_of fl s) (tickets before) t (tickets after)
        (with_metrics-Limited cfg.limits s.limiter _ s.metrics own).consistent

  Step-AllFit :
      (w w' : World F64 IpNet V)
      → Step fl nets parse w w'
      → Counted cfg w
      → AllFit w.live
      → AllFit w'.live
  unfolding AllFit
  Step-AllFit _ _ (accepts s live polling client arrivals t h) i fit =
      (accept_client-IsFit nets s.cfg client, fit)
  Step-AllFit _ _ (fails_to_accept s live polling) i fit = fit
  Step-AllFit _ _ (acts s before c after polling o running) i fit =
      after_step-AllFit before c after (act fl nets parse s c o) polling fit (
        act-FitAfter fl nets parse s c o (counted-Rejecting s before c after i.limited)
          (AllFit-at before c after fit))
  Step-AllFit _ _ (aborts s before c after polling) i fit =
      AllFit-replaced before c (some (resume c unwind)) after fit unwinds
  Step-AllFit _ _ (maintains s live polling shard unix t) i fit = fit
  Step-AllFit _ _ (watches s live polling file unix t) i fit = fit
  Step-AllFit _ _ (starts_poll s live h) i fit = fit
  Step-AllFit _ _ (skips_poll s live h) i fit = fit
  Step-AllFit _ _ (ends_poll s live answer t) i fit = fit
  Step-AllFit _ _ (aborts_poll s live) i fit = fit

  pub reached-AllFit :
      (hash_ip hash_prefix : IpAddr → ℕ) (cache : StatusCache) (t : ℕ) (w : World F64 IpNet V)
      → Reach fl nets parse cfg hash_ip hash_prefix cache t w
      → AllFit w.live
  unfolding AllFit
  reached-AllFit hash_ip hash_prefix cache t _ starts = tt
  reached-AllFit hash_ip hash_prefix cache t w' (steps w _ reached step) =
      Step-AllFit w w' step
        (reached-Counted fl nets parse cfg hash_ip hash_prefix cache t w reached)
        (reached-AllFit hash_ip hash_prefix cache t w reached)
