-- ===== src/BlockParty/Pool/Wakeup/Tests.antt =====
-- A pool with two senders.
use kiruna.Base.{ℕ, ◌+◌, true, false, [], ◌∷◌, total, ◌≡◌, refl}
use kiruna.BlockParty.Pool.Wakeup.{
  away, sent, launching, gone, reading, waiting, System, sends, launches, spawns, takes, asks,
  sender, worker, Reach, start, later,
}
use kiruna.BlockParty.Pool.Wakeup.Heard.{between, to_spawn, alive, bit, Heard, Reach-hears}

-- The first sender has sent task 7 and spawned the worker, which waits for it; the second has sent
-- task 8 and not looked at the flag yet.
abbrev overtaken : System ℕ
overtaken = record {
  shared = record {
    receiver = 8 ∷ [];
    thread_launched = true;
    woken = false;
    worker = waiting;
    tasks = 7 ∷ [];
  };
  senders = away ∷ sent ∷ [];
}

abbrev launched : System ℕ
launched = record {
  shared = record {
    receiver = 7 ∷ [];
    thread_launched = true;
    woken = false;
    worker = reading;
    tasks = [];
  };
  senders = away ∷ away ∷ [];
}

launched-Reach : Reach false 2 launched
launched-Reach =
    later
      {s = record {
        shared = record {
          receiver = 7 ∷ [];
          thread_launched = true;
          woken = false;
          worker = gone;
          tasks = [];
        };
        senders = launching ∷ away ∷ [];
      }}
      (later
        {s = record {
          shared = record {
            receiver = 7 ∷ [];
            thread_launched = false;
            woken = false;
            worker = gone;
            tasks = [];
          };
          senders = sent ∷ away ∷ [];
        }}
        (later start (sender [] (away ∷ []) away sent refl (sends 7 refl) refl))
        (sender [] (away ∷ []) sent launching refl (launches refl) refl))
      (sender [] (away ∷ []) launching away refl spawns refl)

overtaken-Reach : Reach false 2 overtaken
overtaken-Reach =
    later
      {s = record {
        shared = record {
          receiver = [];
          thread_launched = true;
          woken = false;
          worker = waiting;
          tasks = 7 ∷ [];
        };
        senders = away ∷ away ∷ [];
      }}
      (later
        {s = record {
          shared = record {
            receiver = [];
            thread_launched = true;
            woken = false;
            worker = reading;
            tasks = 7 ∷ [];
          };
          senders = away ∷ away ∷ [];
        }}
        (later launched-Reach (worker (takes 7 [] refl refl) refl))
        (worker (asks 7 [] refl refl refl) refl))
      (sender (away ∷ []) [] away sent refl (sends 8 refl) refl)

Reach-hears_example :
    (alive overtaken.shared.worker + total to_spawn overtaken.senders
      ≡ bit overtaken.shared.thread_launched)
    × Heard overtaken.shared (total between overtaken.senders)
Reach-hears_example = Reach-hears overtaken-Reach
