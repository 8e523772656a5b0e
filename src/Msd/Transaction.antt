-- ===== src/Msd/Transaction.antt =====
-- Whole READ and WRITE commands: the wrapper, the data and the status.
use usbqemu_wheel.Common.{
  le_bytes, ℕ, ◌+◌, ◌≤◌, ◌<◌, ◌^◌, ◌≡◌, refl, sym, ap, ◌∙◌, true, false, Option, none, some, List,
  [], ◌∷◌, ◌++◌, arith, length, take, drop, length-write_at, write_at, slice-write_at,
  if◌then◌else◌,
}
use usbqemu_wheel.Usb.Packet.{token_out}
use usbqemu_wheel.Usb.Control.{◌>>=◌}
use usbqemu_wheel.Usb.Control.Stages.{total}
use usbqemu_wheel.Msd.State.{
  Msd, Files, Mode, data_in, data_out, cbw_mode, csw_sig, csw_bytes, buf_size,
}
use usbqemu_wheel.Msd.Transport.{Answer, handle_data}
use usbqemu_wheel.Msd.Disk.{IsDisk}
use usbqemu_wheel.Msd.Part.{ended}
use usbqemu_wheel.Msd.Transfer.{fresh, asked, Chunks, IsTransferring, nonzero, moved_along}
use usbqemu_wheel.Common.{◌*◌, ◌≢◌, bit}
use usbqemu_wheel.Msd.State.{Cbw, block_size, cbw_mode, parse_cbw}
use usbqemu_wheel.Msd.Command.{lba, transfer_len}
use usbqemu_wheel.Msd.Transport.{cbw_size}
use usbqemu_wheel.Msd.Accept.{
  IsCommand, IsTransfer, positioned, accept-positioned, handle_data-command,
}
use usbqemu_wheel.Msd.DataIn.{read_stage, read_stage_lem}
use usbqemu_wheel.Msd.DataOut.{joined, Blocks, write_stage, write_stage_lem}
use usbqemu_wheel.Msd.Status.{answered, handle_data-status}

-- Between two commands.
pub record IsIdle {F : Type 0} (s : Msd F) : Type 0 where
  pub waits : s.mode ≡ cbw_mode
  pub free : s.packet ≡ none
  pub room : length s.buf ≡ buf_size

-- A command for `count` blocks from the block `first` on, of a disk of `size` bytes.
pub record IsRequest (c : Cbw) (first count size : ℕ) : Type 0 where
  pub command : IsCommand c
  pub transfer : IsTransfer c
  pub expects : c.data_len ≢ 0
  pub from : lba c ≡ first
  pub blocks : transfer_len c ≡ count
  pub some_blocks : count ≢ 0
  pub small : count * block_size < 2 ^ 32
  pub within : (first + count) * block_size ≤ size

-- The 13 bytes of a CSW that says that all went well.
abbrev pub good_status : ℕ → List ℕ
good_status tag = le_bytes 4 csw_sig ++ (le_bytes 4 tag ++ (le_bytes 4 0 ++ (0 ∷ [])))

module _ {F : Type 0} (io : Files F) where
  -- A host that reads: the bytes, the status, and the device.
  pub run_read : Msd F → List ℕ → List ℕ → Option (List ℕ × List ℕ × Msd F)
  run_read s cbw ns = handle_data io s (fresh token_out 2 cbw) >>= λ (a : Answer F).
      read_stage io a.dev ns >>= λ (r : List ℕ × Msd F).
      handle_data io r.1 (asked 13) >>= λ (b : Answer F). some (r.0, b.packet.iov, b.dev)

  -- A host that writes.
  pub run_write : Msd F → List ℕ → List (List ℕ) → Option (List ℕ × Msd F)
  run_write s cbw bss = handle_data io s (fresh token_out 2 cbw) >>= λ (a : Answer F).
      write_stage io a.dev bss >>= λ (s' : Msd F).
      handle_data io s' (asked 13) >>= λ (b : Answer F). some (b.packet.iov, b.dev)

module _ {F : Type 0} (io : Files F) (image : F → List ℕ) (position : F → ℕ) where
  -- The command stage.
  begin :
      IsDisk io image position
      → (s : Msd F) → IsIdle s
      → (cbw : List ℕ) (first count : ℕ) → length cbw ≡ cbw_size
      → IsRequest (parse_cbw cbw) first count (length (image s.file))
      → (m : Mode) → (if bit (parse_cbw cbw).flags 7 then data_in else data_out) ≡ m
      → (a : Answer F) × (handle_data io s (fresh token_out 2 cbw) ≡ some a)
        × IsTransferring image position m a.dev (count * block_size) (first * block_size)
        × (image a.dev.file ≡ image s.file)
        × (a.dev.req_tag ≡ (parse_cbw cbw).tag)
  unfolding positioned
  begin disk s v cbw first count n q m dir =
      let c = parse_cbw cbw in
      let (file, sought, same, here) =
        disk.seeks s.file (lba c * block_size) (omega (arith, q.from, q.within)) in
      (
        record {
          dev = positioned s c file;
          packet = record (fresh token_out 2 cbw) { actual_length = cbw_size };
        },
        handle_data-command io s (fresh token_out 2 cbw) refl refl refl n v.waits q.command
            ∙ ap
                (λ t. some (record {
                  dev = t;
                  packet = record (fresh token_out 2 cbw) { actual_length = cbw_size };
                }))
                (accept-positioned io s c file q.transfer q.expects
                  (omega (arith, q.blocks, q.some_blocks)) sought),
        record {
          mode_is = dir ∙ sym (nonzero (count * block_size) m (omega (arith, q.some_blocks)));
          own = refl;
          idle = v.free;
          passed = refl;
          left_is = omega (arith, q.blocks, q.small);
          small = q.small;
          room = v.room;
          here = omega (arith, here, q.from);
          within = omega (arith, ap length same, q.within);
        },
        same,
        refl,
      )

  -- The status stage of a command that moved all its bytes.
  finish :
      (m : Mode) (s : Msd F) (pos : ℕ)
      → IsTransferring image position m s 0 pos
      → (b : Answer F) × (handle_data io s (asked 13) ≡ some b)
        × (b.packet.iov ≡ good_status s.req_tag)
        × IsIdle b.dev
        × (image b.dev.file ≡ image s.file)
  unfolding answered ended csw_bytes
  finish m s pos v = (
    _,
    handle_data-status io s (asked 13) refl refl refl (omega arith) v.mode_is v.idle,
    rw (v.left_is, v.passed) refl,
    record { waits = refl; free = v.idle; room = v.room },
    refl,
  )

  -- On a disk, between two commands, a READ command for blocks inside of it, with a well-
  -- formed wrapper, gives the host exactly the bytes of these blocks, whatever IN packets of
  -- 1 to 4096 bytes ask for them; the status packet of 13 bytes then carries the command's
  -- tag, no residue and no error, the device waits for the next command, and the disk is as
  -- it was.
  pub read_transaction :
      IsDisk io image position
      → (s : Msd F) → IsIdle s
      → (cbw : List ℕ) (first count : ℕ) → length cbw ≡ cbw_size
      → IsRequest (parse_cbw cbw) first count (length (image s.file))
      → bit (parse_cbw cbw).flags 7 ≡ true
      → (ns : List ℕ) → Chunks ns
      → total ns ≡ count * block_size
      → (s' : Msd F) × (run_read io s cbw ns
          ≡ some (
            take (count * block_size) (drop (first * block_size) (image s.file)),
            good_status (parse_cbw cbw).tag,
            s',
          ))
        × IsIdle s'
        × (image s'.file ≡ image s.file)
  unfolding run_read
  read_transaction disk s v cbw first count n q dir ns c all =
      let (a, one, w, i, t) = begin disk s v cbw first count n q data_in (rw dir refl) in
      let (u, moved, w', i', t') =
        read_stage_lem io image position disk a.dev (count * block_size) (first * block_size) ns w c
          (omega arith) in
      let (b, last, status, idle, i'') =
        finish data_in u (first * block_size + total ns) (moved_along w' (omega arith) refl) in
      (
        b.dev,
        rw (one, moved, last, status, t', t)
            (ap
                (λ k. some (
                  take k (drop (first * block_size) (image a.dev.file)),
                  good_status (parse_cbw cbw).tag,
                  b.dev,
                ))
                all
              ∙ ap
                  (λ l. some (
                    take (count * block_size) (drop (first * block_size) l),
                    good_status (parse_cbw cbw).tag,
                    b.dev,
                  ))
                  i),
        idle,
        i'' ∙ i' ∙ i,
      )

  -- On a disk, between two commands, a WRITE command for blocks inside of it, with a well-
  -- formed wrapper, replaces exactly these blocks by the bytes of the OUT packets, whatever
  -- their sizes from 1 to 4096 bytes are; the status packet of 13 bytes then carries the
  -- command's tag, no residue and no error, and the device waits for the next command.
  pub write_transaction :
      IsDisk io image position
      → (s : Msd F) → IsIdle s
      → (cbw : List ℕ) (first count : ℕ) → length cbw ≡ cbw_size
      → IsRequest (parse_cbw cbw) first count (length (image s.file))
      → bit (parse_cbw cbw).flags 7 ≡ false
      → (bss : List (List ℕ)) → Blocks bss
      → length (joined bss) ≡ count * block_size
      → (s' : Msd F) × (run_write io s cbw bss ≡ some (good_status (parse_cbw cbw).tag, s'))
        × IsIdle s'
        × (image s'.file ≡ write_at (image s.file) (first * block_size) (joined bss))
  unfolding run_write
  write_transaction disk s v cbw first count n q dir bss c all =
      let (a, one, w, i, t) = begin disk s v cbw first count n q data_out (rw dir refl) in
      let (u, moved, w', i', t') =
        write_stage_lem io image position disk a.dev (count * block_size) (first * block_size) bss w
          c (omega arith) in
      let (b, last, status, idle, i'') =
        finish data_out u (first * block_size + length (joined bss))
          (moved_along w' (omega arith) refl) in
      (
        b.dev,
        rw (one, moved, last, status, t', t) refl,
        idle,
        i'' ∙ i' ∙ ap (λ l. write_at l (first * block_size) (joined bss)) i,
      )

  -- On a disk, between two commands, a WRITE of some blocks by OUT packets of 1 to 4096 bytes
  -- that add up to the blocks, and then a READ of the same blocks by IN packets of such
  -- sizes, both with a well-formed wrapper and ended by a status packet of 13 bytes, run
  -- without a failed assertion; the host is given the bytes that it wrote, and the status of
  -- a command that passed.
  pub write_then_read :
      IsDisk io image position
      → (s : Msd F) → IsIdle s
      → (wcbw rcbw : List ℕ) (first count : ℕ) → length wcbw ≡ cbw_size
      → length rcbw ≡ cbw_size
      → IsRequest (parse_cbw wcbw) first count (length (image s.file))
      → IsRequest (parse_cbw rcbw) first count (length (image s.file))
      → bit (parse_cbw wcbw).flags 7 ≡ false
      → bit (parse_cbw rcbw).flags 7 ≡ true
      → (bss : List (List ℕ)) → Blocks bss
      → length (joined bss) ≡ count * block_size
      → (ns : List ℕ) → Chunks ns
      → total ns ≡ count * block_size
      → (s' : Msd F) × ((run_write io s wcbw bss >>= λ (r : List ℕ × Msd F).
            run_read io r.1 rcbw ns)
          ≡ some (joined bss, good_status (parse_cbw rcbw).tag, s'))
  write_then_read disk s v wcbw rcbw first count wn rn wq rq wdir rdir bss bc ball ns nc nall =
      let (u, wrote, idle, i) =
        write_transaction disk s v wcbw first count wn wq wdir bss bc ball in
      let same : length (image s.file) ≡ length (image u.file) =
        sym (ap length i ∙ length-write_at (joined bss) (image s.file) (first * block_size)) in
      let rq' : IsRequest (parse_cbw rcbw) first count (length (image u.file)) = rw (sym same) rq in
      let (s', got, idle', i') =
        read_transaction disk u idle rcbw first count rn rq' rdir ns nc nall in
      let read_back : take (count * block_size) (drop (first * block_size) (image u.file))
          ≡ joined bss =
        ap (λ l. take (count * block_size) (drop (first * block_size) l)) i
        ∙ ap
            (λ k. take k (
              drop (first * block_size)
                (write_at (image s.file) (first * block_size) (joined bss))))
            (sym ball)
        ∙ slice-write_at (image s.file) (joined bss) (first * block_size)
            (omega (arith, rq.within)) in
      (s', rw (wrote, got) (ap (λ l. some (l, good_status (parse_cbw rcbw).tag, s')) read_back))
