-- ===== src/Tests/PubSub.antt =====
-- Runs of src/pubsub on small inputs, and inputs for its theorems.
use resplite.Base.{
  ◌+◌, ◌≤◌, ◌≡◌, refl, true, false, some, List, [], ◌∷◌, Bytes, bytes_eq, ◌==◌, arith, inr,
}
use resplite.PubSub.Glob.{Token, star, any, literal, tokenize, match_tokens, match_pub_sub_pattern}
use resplite.PubSub.Glob.Decides.{glob_spec, match_tokens-glob_spec}
use resplite.PubSub.Glob.Tokens.{match_pub_sub_pattern-total}
use resplite.PubSub.Glob.Escaped.{escape, match_pub_sub_pattern-escape}
use resplite.PubSub.Output.{
  Socket, Output, create_output, Event, write_call, drain_event, close_event, end_call, write,
  is_closed, exceeds,
}
use resplite.PubSub.Output
use resplite.PubSub.Output.Order.{sent, pending, total_length, IsValid as IsValidOutput}
use resplite.PubSub.Output.Promises.{Keeps, promised_by, run-Keeps, write-bound}

-- The pattern `a*?` and the value "abbc".
glob_test : match_pub_sub_pattern (97 ∷ 42 ∷ 63 ∷ []) (97 ∷ 98 ∷ 98 ∷ 99 ∷ []) ≡ some true
unfolding match_pub_sub_pattern
glob_test = refl

match_tokens-glob_spec_example :
    match_tokens (literal 97 ∷ star ∷ any ∷ []) (97 ∷ 98 ∷ 98 ∷ 99 ∷ [])
    ≡ some (glob_spec (literal 97 ∷ star ∷ any ∷ []) (97 ∷ 98 ∷ 98 ∷ 99 ∷ []))
match_tokens-glob_spec_example =
    match_tokens-glob_spec (literal 97 ∷ star ∷ any ∷ []) (97 ∷ 98 ∷ 98 ∷ 99 ∷ [])

match_pub_sub_pattern-total_example :
    (tokens : List Token) × (tokenize (91 ∷ 97 ∷ 45 ∷ 99 ∷ 93 ∷ []) ≡ some tokens)
    × ((value : Bytes)
        → match_pub_sub_pattern (91 ∷ 97 ∷ 45 ∷ 99 ∷ 93 ∷ []) value ≡ some (glob_spec tokens value))
match_pub_sub_pattern-total_example = match_pub_sub_pattern-total (91 ∷ 97 ∷ 45 ∷ 99 ∷ 93 ∷ [])

abbrev starred : Bytes
starred = 42 ∷ 97 ∷ []

match_pub_sub_pattern-escape_example :
    match_pub_sub_pattern (escape starred) (98 ∷ 97 ∷ []) ≡ some (starred == (98 ∷ 97 ∷ []))
match_pub_sub_pattern-escape_example = match_pub_sub_pattern-escape starred (98 ∷ 97 ∷ [])

-- A socket that asks the sender to wait after each write.
abbrev full_socket : Socket
full_socket = record { destroyed = false; writable = true; writable_length = 1; takes = λ n. false }

abbrev events : List Event
events =
    write_call full_socket (1 ∷ [])
    ∷ write_call full_socket (2 ∷ [])
    ∷ write_call full_socket (3 ∷ [])
    ∷ drain_event full_socket
    ∷ []

abbrev one_waits : Output
one_waits = record {
  queue = (7 ∷ []) ∷ (8 ∷ []) ∷ [];
  head = 1;
  queued_bytes = 1;
  blocked = true;
  ending = false;
  listening = true;
  log = [];
}

one_waits-IsValid : IsValidOutput one_waits
unfolding total_length
one_waits-IsValid = record { head_bound = omega arith; exact = refl; waits = inr refl }

one_waits-Keeps : Keeps one_waits ((8 ∷ []) ∷ [])
unfolding total_length sent
one_waits-Keeps = (refl, record { head_bound = omega arith; exact = refl; waits = inr refl })

one_waits-accepts : (write 9 full_socket (5 ∷ []) one_waits).0 ≡ true
unfolding write is_closed exceeds
one_waits-accepts = refl

queue_test : sent (Output.run 9 events create_output).log ≡ (1 ∷ []) ∷ (2 ∷ []) ∷ []
unfolding Output.run sent Output.step write is_closed exceeds Output.drain Output.compact
    Output.drain_loop
queue_test = refl

run-Keeps_example :
    Keeps (Output.run 9 events one_waits) (promised_by 9 events one_waits ((8 ∷ []) ∷ []))
run-Keeps_example = run-Keeps 9 events one_waits ((8 ∷ []) ∷ []) one_waits-Keeps

write-bound_example : total_length (pending one_waits) + 1 + 1 ≤ 9
write-bound_example =
    write-bound 9 full_socket (5 ∷ []) one_waits one_waits-IsValid one_waits-accepts
