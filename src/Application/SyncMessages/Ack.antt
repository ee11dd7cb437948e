-- ===== src/Application/SyncMessages/Ack.antt =====
-- Whose cursor an acknowledgement moves.
use aelora.Prelude.{
  ◌≡◌, ◌≢◌, ◌⊎◌, inl, inr, Bool, true, false, not, ◌||◌, eq_iff, trim_space, arith,
}
use aelora.Domain.{Room, Result, ok, has_member}
use aelora.Call.{Keeps}
use aelora.Call.Post.{Post-fail, Post-call, Post-bind, Post-if, err-ne-ok}
use aelora.Ports.{RoomRepository, AckRepository}
use aelora.Application.SyncMessages.{AckMessageCommand, is_blank, acknowledge}

module _ {S : Type 0} (rooms : RoomRepository S) (ack : AckRepository S) (cmd : AckMessageCommand)
    (s : S) where
  -- The command names a room, a user, a device and a stream id, none of them blank, the user is a
  -- member of the room, and the user's cursor for that device and room was set to the stream id.
  pub record Moved (r : Result (Unit {0})) (s' : S) : Type 0 where
    pub room_named : trim_space cmd.room_id ≢ ""
    pub user_named : trim_space cmd.user_id ≢ ""
    pub device_named : trim_space cmd.device_id ≢ ""
    pub stream_named : trim_space cmd.stream_id ≢ ""
    pub room : Room
    pub found : S
    pub lookup_room : rooms.get cmd.room_id s ≡ (ok room, found)
    pub member : has_member room cmd.user_id ≡ true
    pub write : ack.set_last_ack cmd.user_id cmd.device_id cmd.room_id cmd.stream_id found ≡ (r, s')

  pub record NotMoved (P : S → Type 0) (r : Result (Unit {0})) (s' : S) : Type 0 where
    pub fails : r ≢ ok tt
    pub kept : P s'

  -- The names of a command whose blank test failed.
  abbrev names_blank : Bool
  names_blank =
      is_blank cmd.room_id
      || is_blank cmd.user_id
      || is_blank cmd.device_id
      || is_blank cmd.stream_id

  module _ (named : names_blank ≡ false) where
    named_parts :
        (trim_space cmd.room_id ≢ "")
        × (trim_space cmd.user_id ≢ "")
        × (trim_space cmd.device_id ≢ "")
        × (trim_space cmd.stream_id ≢ "")
    named_parts = ground (
      arith,
      eq_iff (trim_space cmd.room_id) "",
      eq_iff (trim_space cmd.user_id) "",
      eq_iff (trim_space cmd.device_id) "",
      eq_iff (trim_space cmd.stream_id) "",
    )

  -- An acknowledgement either fails having only looked the room up, or every name in it is not
  -- blank, the user is a member, and exactly that user's cursor of that device in that room is set.
  pub ack_cases :
      (P : S → Type 0)
      → Keeps P (rooms.get cmd.room_id)
      → P s
      → let (r, s') = acknowledge rooms ack cmd s in NotMoved P r s' ⊎ Moved r s'
  unfolding acknowledge
  ack_cases P keep p =
      (Post-if {Q = λ r s'. NotMoved P r s' ⊎ Moved r s'} names_blank
        (λ blank. Post-fail (inl (record { fails = err-ne-ok _ tt; kept = p })))
        λ named.
          Post-bind (rooms.get cmd.room_id) s
            (λ e s1 q. inl (record { fails = err-ne-ok _ tt; kept = rw q at (keep s p) }))
            λ room s1 q.
              Post-if (not (has_member room cmd.user_id))
                (λ out.
                  Post-fail (inl (record { fails = err-ne-ok _ tt; kept = rw q at (keep s p) })))
                λ member.
                  Post-call (ack.set_last_ack cmd.user_id cmd.device_id cmd.room_id cmd.stream_id)
                    s1
                    λ r s2 w. inr (record {
                      room_named = (named_parts named).0;
                      user_named = (named_parts named).1;
                      device_named = (named_parts named).2;
                      stream_named = (named_parts named).3;
                      room = room;
                      found = s1;
                      lookup_room = q;
                      member = ground arith;
                      write = w;
                    })).holds
