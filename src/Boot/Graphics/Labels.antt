-- ===== src/Boot/Graphics/Labels.antt =====
-- The list of the graphics devices in `InitUEFI_GOP` (src/bootloader/boot.c) has a name for each of them.
use pious_os.Base.{ℕ, suc, ◌+◌, ◌*◌, ◌%◌, ◌^◌, ◌≡◌, refl, ap, ◌∙◌, List, [], ◌∷◌, length}
use pious_os.Boot.Search.{is_success}
use pious_os.Boot.Image.Firmware.{Firmware, pure, return, called, checked}
use pious_os.Boot.Image.Post.{
  Post, Post-bind, Post-mono, Post-if, Post-checked, Post-seq, Post-call,
}
use pious_os.Boot.Graphics.Names.{
  Located, graphics_output, component_name2, device_path, Handles, NameCalls, is_unsupported,
  unknown_device,
}
use pious_os.Boot.Graphics.Drivers.{device_names}
use pious_os.Boot.Graphics.Screened.{device_names_lem}
use pious_os.Boot.Graphics.Listed.{
  Devices, locate, device_label, device_labels, allocate_names, list_devices,
}

module _ {F : Type 0} (fw : Firmware F) (calls : NameCalls F) where
  locate_lem :
      (protocol : Located) (s : F)
      → Post ⊥
          (λ handles s'. handles ≡ (calls.locate_handles protocol s).0.1)
          (locate fw calls protocol s)
  unfolding locate
  locate_lem protocol s =
      let answer = (calls.locate_handles protocol s).0 in
      let s1 = (calls.locate_handles protocol s).1 in
      Post-bind ⊥ _ (checked (λ s. (answer.0, s))) _ s1
        (Post-checked ⊥ _ (λ s. (answer.0, s)) s1 (λ e. refl))

  -- A label is always made, or the loader returns.
  device_label_ends :
      (drivers controllers : List ℕ) (number graphics : ℕ) (s : F)
      → Post ⊥ (λ label s'. Unit {0}) (device_label fw calls drivers controllers number graphics s)
  unfolding device_label
  device_label_ends drivers controllers number graphics s =
      let path = (calls.open_device_path graphics s).0 in
      let s1 = (calls.open_device_path graphics s).1 in
      Post-if ⊥ _ (is_success path.0) _ _ s1
        (λ e. Post-bind ⊥ _ (device_names fw calls graphics path.1 drivers controllers) _ s1 (
          Post-mono ⊥ _ _ (device_names fw calls graphics path.1 drivers controllers s1)
            (λ names s2 h. tt) (device_names_lem fw calls graphics path.1 drivers controllers s1)))
        (λ e.
          Post-if ⊥ _ (is_unsupported path.0) (called (calls.cat_print (unknown_device _ graphics)))
            (return path.0) s1 (λ e'. tt) (λ e'. tt))

  device_labels-length :
      (drivers controllers : List ℕ) (number : ℕ) (devices : List ℕ) (s : F)
      → Post ⊥
          (λ labels s'. length labels ≡ length devices)
          (device_labels fw calls drivers controllers number devices s)
  unfolding device_labels
  device_labels-length drivers controllers number [] s = refl
  device_labels-length drivers controllers number (graphics ∷ devices) s =
      Post-bind ⊥ _ (device_label fw calls drivers controllers number graphics) _ s (
        Post-mono ⊥ _ _ (device_label fw calls drivers controllers number graphics s)
          (λ label s1 h.
            Post-bind ⊥ _ (device_labels fw calls drivers controllers (number + 1) devices) _ s1 (
              Post-mono ⊥ _ _ (device_labels fw calls drivers controllers (number + 1) devices s1)
                (λ labels s2 h'. ap suc h')
                (device_labels-length drivers controllers (number + 1) devices s1)))
          (device_label_ends drivers controllers number graphics s))

  allocate_names_ends :
      (count : ℕ) (s : F) → Post ⊥ (λ pool s'. Unit {0}) (allocate_names fw calls count s)
  unfolding allocate_names
  allocate_names_ends count s =
      let pool = (fw.allocate_pool (8 * count % 2 ^ 64) s).0 in
      let s1 = (fw.allocate_pool (8 * count % 2 ^ 64) s).1 in
      Post-call ⊥ _ (λ s. (pool.0, s)) (λ status. pure pool.1) s1 (λ e. tt)

  -- The devices are those that were located first, each with a name.
  abbrev pub Lists : Handles → Devices → Type 0
  Lists found devices = (devices.graphics ≡ found) × (length devices.names ≡ length found.handles)

  pub list_devices-Lists :
      (s : F)
      → Post ⊥
          (λ devices s'. Lists (calls.locate_handles graphics_output s).0.1 devices)
          (list_devices fw calls s)
  unfolding list_devices
  list_devices-Lists s =
      let P = λ (devices : Devices) (s' : F).
        Lists (calls.locate_handles graphics_output s).0.1 devices in
      Post-seq ⊥ _ P (locate fw calls graphics_output) _ s (locate_lem graphics_output s)
        (λ graphics s1 found.
          Post-seq ⊥ _ P (allocate_names fw calls (length graphics.handles)) _ s1
            (allocate_names_ends (length graphics.handles) s1)
            (λ buffer s2 h2.
              Post-seq ⊥ _ P (locate fw calls component_name2) _ s2 (locate_lem component_name2 s2)
                (λ drivers s3 h3.
                  Post-seq ⊥ _ P (locate fw calls device_path) _ s3 (locate_lem device_path s3)
                    (λ controllers s4 h4.
                      Post-seq ⊥ _ P
                        (device_labels fw calls drivers.handles controllers.handles 0
                          graphics.handles)
                        _ s4
                        (device_labels-length drivers.handles controllers.handles 0 graphics.handles
                          s4)
                        (λ labels s5 count. Post-call ⊥ P (fw.free_pool controllers.pool) _ s5 (λ e.
                          let s6 = (fw.free_pool controllers.pool s5).1 in
                          Post-call ⊥ P (fw.free_pool drivers.pool) _ s6 (λ e'.
                            (found, count ∙ ap (λ (h : Handles). length h.handles) found))))))))
