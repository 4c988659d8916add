-- ===== src/Web/Tests.antt =====
-- Small inputs of the web app's core (webapp/core), and its theorems on them.
use vakant.Prelude.{◌≡◌, refl, true, false, none, some, if◌then◌else◌, List, [], ◌∷◌, All, length}
use vakant.Prelude.Int.{pos}
use vakant.Prelude.Text.{codes, text_eq, after_prefix, strip_start, strip_end, is_space}
use vakant.Web.EventQueue.{
  EventRow, new_api, arrive, inserted, Round, run_rounds, Event, emits, flushes, starts, stops,
  history, all_emitted, AllWhole, WholeEvent,
}
use vakant.Web.EventQueue.Accounts.{Accounted, history-Accounted}
use vakant.Web.EventQueue.Order.{seen, history-seen}
use vakant.Admin.Sessions.{decode_session_token}
use vakant.Web.Limiter.{
  Verifiers, Request, rate_limit_key, identity_key, verified_session_key, IsVerified,
  rate_limit_key-IsVerified,
}

-- One token was signed, for the session `s1`, and nobody has sent initData that verifies.
abbrev trust : Verifiers
trust = record {
  settings = record {
    verified = λ t.
        if text_eq t (codes "token")
        then some (record { sid = some (codes "s1"); exp = some (pos 900) })
        else none;
    admin_ids = λ k. false;
  };
  telegram = record {
    token = codes "bot";
    window = 300;
    parsed = λ s. [];
    mac = λ key s. s;
    int = λ s. none;
    user_id = λ s. none;
    fraction = false;
  };
}

abbrev caller : Request
caller = record {
  cached = none;
  user_id = none;
  authorization = codes "Bearer token";
  init_data = codes "junk";
  ip = codes "10.0.0.1";
}

caller_key : (rate_limit_key trust 100 caller).0 ≡ codes "sess:s1"
unfolding rate_limit_key identity_key verified_session_key after_prefix strip_start strip_end
    is_space text_eq decode_session_token
caller_key = refl

rate_limit_key-IsVerified_example :
    IsVerified trust 100 caller (rate_limit_key trust 100 caller).0
    × ((rate_limit_key trust 1000 (rate_limit_key trust 100 caller).1).0
        ≡ (rate_limit_key trust 100 caller).0)
rate_limit_key-IsVerified_example = rate_limit_key-IsVerified trust 100 1000 caller refl

abbrev opened_event : EventRow
opened_event = record {
  user_id = 1;
  event_name = codes "builder_opened";
  step = none;
  meta_json = none;
  created_at = 7;
}

abbrev saved_event : EventRow
saved_event = record opened_event { event_name = codes "autosave_success"; created_at = 8 }

abbrev good_round : Round
good_round = record {
  arrived = saved_event ∷ [];
  opened = true;
  write = inserted;
  meanwhile = opened_event ∷ [];
}

abbrev beats : List Event
beats =
    starts ∷ (emits opened_event ∷ (flushes good_round ∷ (stops (good_round ∷ []) good_round ∷ [])))

beats_whole : All WholeEvent beats
unfolding AllWhole
beats_whole = (tt, (tt, (tt, (((tt, tt), tt, refl), tt))))

none_dropped : (history beats (new_api 10 2)).queue.dropped ≡ 0
unfolding history arrive run_rounds
none_dropped = refl

all_written : length (history beats (new_api 10 2)).table ≡ 6
unfolding history arrive run_rounds
all_written = refl

one_dropped : (history beats (new_api 1 2)).queue.dropped ≡ 3
unfolding history arrive run_rounds
one_dropped = refl

history-Accounted_example : Accounted (length (all_emitted beats)) (history beats (new_api 10 2))
history-Accounted_example = history-Accounted 10 2 beats beats_whole

history-seen_example : seen (history beats (new_api 10 2)) ≡ all_emitted beats
history-seen_example = history-seen 10 2 beats beats_whole none_dropped
