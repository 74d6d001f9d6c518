-- ===== src/Epoll/Tests.antt =====
-- A kernel's table of descriptors as a function, and runs of updateChannel, disableAll and remove.
use wserver.Prelude.{◌≡◌, refl, true, none, some, Returns}
use wserver.Channel.{
  Channel, k_added, k_read_event, new, enable_reading, is_writing, disable_writing,
}
use wserver.Epoll.{Epoll, put, update_channel}
use wserver.Epoll.Table.{table_kernel}
use wserver.Epoll.Registration.{Updated, update_channel_correct}

abbrev empty_epoll : Epoll table_kernel
empty_epoll = record { channels = λ j. none; capacity = 16; kernel = λ j. none }

update_channel_correct_example :
    Returns
      (Updated table_kernel 0xA0 k_read_event (new 5) empty_epoll)
      (update_channel table_kernel 0xA0 (record (new 5) { events = k_read_event }) empty_epoll)
unfolding new
update_channel_correct_example =
    update_channel_correct table_kernel 0xA0 k_read_event (new 5) empty_epoll (refl, refl)

abbrev listening : Channel
listening = record (new 5) { events = k_read_event; index = k_added }

abbrev listening_epoll : Epoll table_kernel
listening_epoll = record {
  channels = put (λ j. none) 5 (some 0xA0);
  capacity = 16;
  kernel = put (λ j. none) 5 (some k_read_event);
}

-- disableWriting changes nothing, and a channel that waits to read counts as writing.
disable_writing_keeps : (disable_writing (enable_reading (new 5))).events ≡ k_read_event
unfolding disable_writing enable_reading new
disable_writing_keeps = refl

reading_counts_as_writing : is_writing (enable_reading (new 5)) ≡ true
unfolding is_writing enable_reading new
reading_counts_as_writing = refl
