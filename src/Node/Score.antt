-- ===== src/Node/Score.antt =====
-- registry.rs: how much a node has still to do. A message counts at its level, once in a queue,
-- twice in a spawned task and three times before it is sent.
use gwyh.Base.{
  ◌≡◌, refl, ℕ, zero, suc, ◌+◌, ◌*◌, ◌<◌, ◌≤◌, ◌==◌, List, [], ◌∷◌, ◌++◌, All, arith, if◌then◌else◌,
  dec_lt, subst,
}
use mathlib.Core.WellFounded.{Acc}
use gwyh.Actor.{Effect}
use gwyh.Waiting.{level}
use gwyh.Node.Control.{ActorName, Request, Phase, idle, Control, Controls, get, put}
use gwyh.Node.State.{Node}
use gwyh.Node.Invariant.{unsent}

-- Of a family of numbers one falls, below the given bound, and those after it do not rise.
module _ {A : Type 0} (score : ℕ → A → ℕ) where
  abbrev pub Drops : ℕ → A → A → Type 0
  Drops bound b a =
      (l : ℕ) × (l < bound) × (score l b < score l a) × ((k : ℕ) → l < k → score k b ≤ score k a)

  Drops-step :
      (bound s : ℕ) (a : A)
      → Acc (Drops bound) a
      → score bound a < suc s
      → ((b : A) → score bound b < s → Acc (Drops (suc bound)) b)
      → Acc (Drops (suc bound)) a
  Drops-step bound s a (Acc.intro _ smaller) small next = Acc.intro a (λ b (l, lt, falls, rest).
      elim (dec_lt l bound) [
        | yes below ↦
            Drops-step bound s b (smaller b (l, below, falls, rest))
              (let r = rest bound below in omega arith) next
        | no above ↦
            let same : l ≡ bound = omega arith in
            next b (let f = subst (λ l. score l b < score l a) same falls in omega arith)
      ])

  Drops-below :
      (bound s : ℕ) (a : A)
      → ((a : A) → Acc (Drops bound) a)
      → score bound a < s
      → Acc (Drops (suc bound)) a
  Drops-below bound zero a acc small = absurd (omega arith)
  Drops-below bound (suc s) a acc small =
      Drops-step bound s a (acc a) small (λ b less. Drops-below bound s b acc less)

  pub Drops-Acc : (bound : ℕ) (a : A) → Acc (Drops bound) a
  Drops-Acc zero a = Acc.intro a (λ b (l, lt, _, _). absurd (omega arith))
  Drops-Acc (suc bound) a =
      Drops-below bound (suc (score bound a)) a (Drops-Acc bound) (omega arith)

unfoldable pub hit : ℕ → ℕ → ℕ
hit k l = if l == k then 1 else 0

pub hit-same : (k : ℕ) → hit k k ≡ 1
unfolding hit
hit-same k = ground arith

pub hit-above : (k l : ℕ) → l < k → hit k l ≡ 0
unfolding hit
hit-above k l lt = ground arith

abbrev pub effects_score : ℕ → ℕ → List Effect → ℕ
effects_score k w [] = 0
effects_score k w (e ∷ es) = hit k (level e) * w + effects_score k w es

abbrev pub requests_score : ℕ → List Request → ℕ
requests_score k [] = 0
requests_score k (r ∷ rs) = hit k (level r.body) + requests_score k rs

abbrev pub busy_score : Phase → ℕ
busy_score idle = 0
busy_score _ = 1

abbrev pub control_score : ℕ → Control → ℕ
control_score zero c = busy_score c.phase
control_score (suc k) c = requests_score k c.queue + effects_score k 3 (unsent c.phase)

abbrev pub tasks_score : ℕ → List Effect → ℕ
tasks_score zero es = 0
tasks_score (suc k) es = effects_score k 2 es

abbrev pub controls_score : ℕ → Controls → ℕ
controls_score k cs =
    control_score k cs.packet_handler
    + control_score k cs.handshaker
    + control_score k cs.peer_manager

abbrev pub score : {Seen : Type 0} → ℕ → Node Seen → ℕ
score k n = controls_score k n.controls + tasks_score k n.tasks

-- Less is left to do.
abbrev pub Less : {Seen : Type 0} → Node Seen → Node Seen → Type 0
Less m n = Drops score 6 m n

pub put-score :
    (k : ℕ) (a : ActorName) (c : Control) (cs : Controls)
    → controls_score k (put a c cs) + control_score k (get a cs)
      ≡ controls_score k cs + control_score k c
put-score k ActorName.packet_handler c cs = omega arith
put-score k ActorName.handshaker c cs = omega arith
put-score k ActorName.peer_manager c cs = omega arith

pub effects_score-append :
    (k w : ℕ) (es fs : List Effect)
    → effects_score k w (es ++ fs) ≡ effects_score k w es + effects_score k w fs
effects_score-append k w [] fs = omega arith
effects_score-append k w (e ∷ es) fs = omega (arith, effects_score-append k w es fs)

pub requests_score-append :
    (k : ℕ) (rs ss : List Request)
    → requests_score k (rs ++ ss) ≡ requests_score k rs + requests_score k ss
requests_score-append k [] ss = omega arith
requests_score-append k (r ∷ rs) ss = omega (arith, requests_score-append k rs ss)

-- Messages of lower levels do not count.
pub effects_score-lower :
    (k w l : ℕ) (P : Effect → Type 0) (es : List Effect)
    → l < suc k
    → All (λ e. P e × (level e < l)) es
    → effects_score k w es ≡ 0
effects_score-lower k w l P [] lt h = refl
effects_score-lower k w l P (e ∷ es) lt h = ground (
  arith,
  effects_score-lower k w l P es lt h.1,
  hit-above k (level e) (let b = h.0.1 in omega arith),
)
