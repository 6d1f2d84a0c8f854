-- ===== src/Net/Epoller/Examples.antt =====
-- Runs of the poller over a kernel that keeps a table.
use xjblg.Base.{
  some-injective, ℕ, zero, suc, ◌≡◌, refl, ap, true, false, Option, none, some, [], ◌∷◌,
}
use xjblg.Base.Maps.{put}
use xjblg.Net.Channel.{
  Interest, Channel, none_event, nothing_ready, make_channel, with_reading, without_all,
}
use xjblg.Net.Epoller.{
  Index, new, added, deleted, Op, ctl_add, ctl_mod, ctl_del, Event, Kernel, Epoller, Report, update,
  set_index, update_by, update_channel, change, is_new,
}
use xjblg.Net.Epoller.Invariant.{Agrees}
use xjblg.Net.Epoller.Updating.{Becomes, change-Agrees}
use xjblg.Net.Epoller.Sequences.{make_epoller, Run, made, changed, Run-Agrees}
use xjblg.Net.Epoller.Waiting.{Watched}

table_ctl : Op → ℕ → Event → (ℕ → Option Event) → Option (ℕ → Option Event)
table_ctl ctl_add fd e k = elim (k fd) [ none ↦ some (put k fd (some e)) | some b ↦ none ]
table_ctl ctl_mod fd e k = elim (k fd) [ none ↦ none | some b ↦ some (put k fd (some e)) ]
table_ctl ctl_del fd e k = elim (k fd) [ none ↦ none | some b ↦ some (put k fd none) ]

table_adds :
    (k : ℕ → Option Event) (fd : ℕ) (e : Event)
    → k fd ≡ none
    → (k' : ℕ → Option Event) × (table_ctl ctl_add fd e k ≡ some k') × (k' ≡ put k fd (some e))
unfolding table_ctl
table_adds k fd e h = (put k fd (some e), rw (table_ctl, h) refl, refl)

table_changes :
    (k : ℕ → Option Event) (fd : ℕ) (e before : Event)
    → k fd ≡ some before
    → (k' : ℕ → Option Event) × (table_ctl ctl_mod fd e k ≡ some k') × (k' ≡ put k fd (some e))
unfolding table_ctl
table_changes k fd e before h = (put k fd (some e), rw (table_ctl, h) refl, refl)

table_deletes :
    (k : ℕ → Option Event) (fd : ℕ) (e before : Event)
    → k fd ≡ some before
    → (k' : ℕ → Option Event) × (table_ctl ctl_del fd e k ≡ some k') × (k' ≡ put k fd none)
unfolding table_ctl
table_deletes k fd e before h = (put k fd none, rw (table_ctl, h) refl, refl)

abbrev table : Kernel
table = record {
  Instance = ℕ → Option Event;
  ctl = table_ctl;
  watched = λ k. k;
  adds = table_adds;
  changes = table_changes;
  deletes = table_deletes;
}

-- Channel p is over descriptor p.
abbrev fresh_poller : Epoller table
fresh_poller = make_epoller table (λ fd. none) (make_channel new)

fresh-Run : Run table fresh_poller
fresh-Run = made (λ fd. none) (make_channel new) (λ fd. refl) (λ p. refl)

abbrev reading : Interest
reading = record { reads = true; writes = false }

abbrev reader : Channel Index
reader = record {
  fd = 5;
  interest = reading;
  ready = nothing_ready;
  index = added;
  added_to_loop = true;
}

-- After channel 5 has enabled reading.
abbrev watching : Epoller table
watching = record {
  channels = put (λ fd. none) 5 (some 5);
  store = put (put (make_channel new) 5 (record reader { index = new })) 5 reader;
  instance = put (λ fd. none) 5 (some (record { wants = reading; ptr = 5 }));
  room = 16;
}

enables : change table with_reading 5 fresh_poller ≡ some watching
unfolding change update_channel update_by update set_index table_ctl put
enables = refl

watching-Run : Run table watching
watching-Run = changed with_reading 5 watching fresh-Run enables

Run-Agrees_example : Agrees table watching
Run-Agrees_example = Run-Agrees table watching watching-Run

change-Agrees_example :
    (s' : Epoller table) × (change table with_reading 5 fresh_poller ≡ some s')
    × Becomes table 5
        (record (fresh_poller.store 5) { interest = reading; added_to_loop = true })
        fresh_poller
        s'
change-Agrees_example =
    change-Agrees table fresh_poller 5 with_reading (Run-Agrees table fresh_poller fresh-Run)
      (λ h. refl)

-- After it has disabled everything.
abbrev resting : Epoller table
resting = record {
  channels = put (λ fd. none) 5 (some 5);
  store =
      put (put watching.store 5 (record reader { interest = none_event })) 5
        (record reader { interest = none_event; index = deleted });
  instance = put watching.instance 5 none;
  room = 16;
}

disables : change table without_all 5 watching ≡ some resting
unfolding change update_channel update_by update set_index table_ctl put
disables = refl

resting_index : is_new (resting.store 5).index ≡ false
unfolding put
resting_index = refl

abbrev arrived : Report
arrived = record { ready = record nothing_ready { readable = true }; ptr = 5 }

arrived-Watched : Watched table watching.instance (arrived ∷ [])
unfolding Watched put
arrived-Watched zero r h =
    (5, reading, ap (λ x. some (record { wants = reading; ptr = x.ptr })) (some-injective h))
arrived-Watched (suc i) r h = cc
