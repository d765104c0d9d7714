-- ===== src/Context/Tests.antt =====
-- A transcript that is cut to its limits.
use lenko_bot.Prelude.{◌≡◌, refl, List, [], ◌∷◌, map, take}
use mathlib.Core.List.{reverse}
use lenko_bot.State.{TranscriptTurn}
use lenko_bot.Session.Tests.{user_turn, reply_turn}
use lenko_bot.Context.{TranscriptContextLimits, clip_loop, clip_transcript}
use lenko_bot.Context.Clip.{joined, cut_turns, clip_transcript-joined}

-- "yo" and the first letter of "hi" have room.
abbrev small_limits : TranscriptContextLimits
small_limits = record { max_turns = 8; max_chars = 3; max_turn_chars = 2 }

abbrev exchange : List TranscriptTurn
exchange = user_turn ∷ reply_turn ∷ []

clipped :
    map (λ e. e.content) (clip_transcript small_limits exchange)
    ≡ (104 ∷ []) ∷ (121 ∷ 111 ∷ []) ∷ []
unfolding clip_transcript clip_loop lenko_bot.Text.is_empty
clipped = refl

clip_transcript-joined_example :
    joined (map (λ e. e.content) (reverse (clip_transcript small_limits exchange)))
    ≡ take 3 (cut_turns 2 (reverse exchange))
clip_transcript-joined_example = clip_transcript-joined small_limits exchange
