-- ===== src/Examples/Gates.antt =====
-- Runs of the attacks on a gate (internal/siege/gate.go).
use astrahold_server.Common.{
  ◌≢◌, ℕ, List, inl, inr, ◌≡◌, refl, true, none, some, [], ◌∷◌, arith, codes, lookup, insert,
  ℕ_discrete, Text-discrete, text_key, nat_key, pos,
}
use astrahold_server.Scene.{Position, Navigator, blocker_enabled, blocker_definition}
use astrahold_server.Siege.{attack_key, Service, AttackKey-discrete}
use astrahold_server.Siege.Gates.{attack, reach, strike, cooldown_ticks}
use astrahold_server.Siege.Calls.{Call, attacks, removes, run}
use astrahold_server.Siege.Cooldown.{of_attacker, attack_cools_down}
use astrahold_server.Siege.GateMoves.{Refused, GatesHold, attack-GatesHold}
use astrahold_server.Examples.Sieges.{plain, main_gate, bars}

abbrev closed_scene : Navigator
closed_scene = record { blockers = (codes "b", bars) ∷ []; enabled = (codes "b", true) ∷ [] }

abbrev guarded : Service
guarded = record {
  gates = (codes "g", record { definition = main_gate; hp = 10 }) ∷ [];
  order = codes "g" ∷ [];
  next_attack_tick = [];
  siege_match = none;
}

abbrev doorstep : Position
doorstep = record { x = 0; y = 0; z = 0; layer = 0 }

guarded-GatesHold : GatesHold plain guarded closed_scene
unfolding lookup
guarded-GatesHold = record { each = λ id g e. (ground arith, ground arith) }

attack-GatesHold_example :
    let r = attack plain guarded 1 doorstep (codes "g") 7 (pos 3) closed_scene in
    GatesHold plain r.0 r.1
attack-GatesHold_example =
    attack-GatesHold plain guarded 1 doorstep (codes "g") 7 (pos 3) closed_scene guarded-GatesHold

guarded_hit : (attack plain guarded 1 doorstep (codes "g") 7 (pos 3) closed_scene).3 ≡ none
unfolding attack reach strike cooldown_ticks lookup insert blocker_enabled blocker_definition
    Text-discrete ℕ_discrete AttackKey-discrete
guarded_hit = refl

guarded_gate : lookup (codes "g") guarded.gates ≡ some (record { definition = main_gate; hp = 10 })
unfolding lookup Text-discrete ℕ_discrete
guarded_gate = refl

-- Another attacker, and the same one too early, come between.
abbrev between : List Call
between =
    attacks 2 doorstep (codes "g") 8 (pos 3) closed_scene
    ∷ attacks 1 doorstep (codes "g") 8 (pos 3) closed_scene
    ∷ removes 5
    ∷ []

abbrev another : ℕ
another = 2

another_attacker : of_attacker another (codes "g") ≢ of_attacker 1 (codes "g")
another_attacker = ground arith

attack_cools_down_example :
    let u =
      run plain (attack plain guarded 1 doorstep (codes "g") 7 (pos 3) closed_scene).0 between in
    Refused plain u closed_scene (attack plain u 1 doorstep (codes "g") 9 (pos 3) closed_scene)
unfolding cooldown_ticks
attack_cools_down_example =
    attack_cools_down plain guarded 1 doorstep doorstep (codes "g") 7 9 (pos 3) (pos 3) closed_scene
      closed_scene (record { definition = main_gate; hp = 10 }) between guarded_gate (omega arith)
      guarded_hit (inl another_attacker, (inr (omega arith), (tt, tt))) (omega arith)
