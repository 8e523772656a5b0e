-- ===== src/Msd/Disk.antt =====
-- What the device relies on of its file: a disk image of a fixed size.
use usbqemu_wheel.Common.{ℕ, ◌+◌, ◌≤◌, ◌≡◌, List, length, take, drop, write_at, some}
use usbqemu_wheel.Msd.State.{Files}

-- Inside of the image a seek, a read and a write succeed, and move the position.
pub record IsDisk {F : Type 0} (io : Files F) (image : F → List ℕ) (position : F → ℕ) : Type 0 where
  pub seeks :
      (f : F) (n : ℕ)
      → n ≤ length (image f)
      → (f' : F) × (io.fseek f n ≡ some f') × (image f' ≡ image f) × (position f' ≡ n)
  pub reads :
      (f : F) (n : ℕ)
      → position f + n ≤ length (image f)
      → ((io.fread f n).0 ≡ take n (drop (position f) (image f)))
        × (image (io.fread f n).1 ≡ image f)
        × (position (io.fread f n).1 ≡ position f + n)
  pub writes :
      (f : F) (bs : List ℕ)
      → position f + length bs ≤ length (image f)
      → ((io.fwrite f bs).0 ≡ length bs)
        × (image (io.fwrite f bs).1 ≡ write_at (image f) (position f) bs)
        × (position (io.fwrite f bs).1 ≡ position f + length bs)
