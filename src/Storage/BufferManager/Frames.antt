-- ===== src/Storage/BufferManager/Frames.antt =====
-- What each operation of the pool does to each frame.
use cpp_relational_db.Base.{
  ℕ, ◌+◌, ◌-◌, ◌%◌, ◌^◌, ◌<◌, ◌≡◌, ◌≢◌, arith, length, get_or-set, get_or-set_self, get_or-set_ne,
}
use cpp_relational_db.Storage.BufferManager.{
  Frame, BufferManager, new_frame, frame, set_frame, pin, unpin,
}

module _ {D : Type 0} (b : BufferManager D) (f : ℕ) where
  module _ (fr : Frame) where
    pub frame-set_frame_ne : (g : ℕ) → f ≢ g → frame (set_frame b f fr) g ≡ frame b g
    frame-set_frame_ne g ne = get_or-set_ne b.pool f g fr _ ne

    pub frame-set_frame_self : f < length b.pool → frame (set_frame b f fr) f ≡ fr
    frame-set_frame_self h = get_or-set_self b.pool f fr _ h

  -- `pin` and `unpin` change the pin count alone.
  pub pin-frame :
      (g : ℕ)
      → ((frame (pin b f) g).page_id ≡ (frame b g).page_id)
        × ((frame (pin b f) g).dirty ≡ (frame b g).dirty)
        × ((frame (pin b f) g).bytes ≡ (frame b g).bytes)
  unfolding pin
  pin-frame g = ground (
    arith,
    get_or-set b.pool f g (record (frame b f) { pin_count = ((frame b f).pin_count + 1) % 2 ^ 32 })
        (new_frame (λ _. 0)),
  )

  pub unpin-frame :
      (g : ℕ)
      → ((frame (unpin b f) g).page_id ≡ (frame b g).page_id)
        × ((frame (unpin b f) g).dirty ≡ (frame b g).dirty)
        × ((frame (unpin b f) g).bytes ≡ (frame b g).bytes)
  unfolding unpin
  unpin-frame g = ground (
    arith,
    get_or-set b.pool f g
        (record (frame b f) { pin_count = ((frame b f).pin_count + 2 ^ 32 - 1) % 2 ^ 32 })
        (new_frame (λ _. 0)),
  )
