-- ===== src/Shadow/Tracked.antt =====
-- `TRACKED` of qcbridge/ring1/shadow.py: the fixed paths that ride tier 1, by datablock type.
use text.Mathlib.Text.{starts_with}
use qcbridge.Prelude.{◌≡◌, refl, Bool, true, not, ◌&&◌, List, [], ◌∷◌, String, string_eq, all, ◌||◌}
use qcbridge.KeySet.{has}

-- The keys of the table.
pub data TypeKey : Type 0 where
  object light camera scene material world collection key : TypeKey

unfoldable pub tracked : TypeKey → List String
tracked object =
    "name" ∷ "location" ∷ "rotation_euler" ∷ "rotation_quaternion" ∷ "rotation_mode" ∷ "scale"
    ∷ "delta_location" ∷ "delta_rotation_euler" ∷ "delta_scale" ∷ "color" ∷ "hide_viewport"
    ∷ "hide_render" ∷ "display_type" ∷ "show_in_front" ∷ "show_wire" ∷ "show_name" ∷ "show_axis"
    ∷ "visible_camera" ∷ "visible_diffuse" ∷ "visible_glossy" ∷ "visible_transmission"
    ∷ "visible_volume_scatter" ∷ "visible_shadow" ∷ "is_holdout" ∷ "is_shadow_catcher"
    ∷ "instance_type" ∷ "use_instance_vertices_rotation" ∷ "empty_display_type"
    ∷ "empty_display_size" ∷ "empty_image_offset" ∷ "empty_image_depth" ∷ "field.type"
    ∷ "field.strength" ∷ "field.flow" ∷ "field.noise" ∷ "field.seed" ∷ "field.shape"
    ∷ "field.falloff_type" ∷ "field.falloff_power" ∷ "field.use_max_distance" ∷ "field.distance_max"
    ∷ "field.use_min_distance" ∷ "field.distance_min" ∷ "field.wind_factor" ∷ "field.inflow" ∷ []
tracked light =
    "name" ∷ "type" ∷ "color" ∷ "energy" ∷ "exposure" ∷ "normalize" ∷ "shadow_soft_size"
    ∷ "use_shadow" ∷ "spot_size" ∷ "spot_blend" ∷ "show_cone" ∷ "shape" ∷ "size" ∷ "size_y"
    ∷ "spread" ∷ "angle" ∷ "diffuse_factor" ∷ "specular_factor" ∷ "volume_factor"
    ∷ "transmission_factor" ∷ "use_custom_distance" ∷ "cutoff_distance" ∷ "shadow_jitter_overblur"
    ∷ []
tracked camera =
    "name" ∷ "type" ∷ "lens" ∷ "lens_unit" ∷ "ortho_scale" ∷ "clip_start" ∷ "clip_end"
    ∷ "sensor_width" ∷ "sensor_height" ∷ "sensor_fit" ∷ "shift_x" ∷ "shift_y" ∷ "dof.use_dof"
    ∷ "dof.focus_distance" ∷ "dof.aperture_fstop" ∷ "dof.aperture_blades" ∷ "dof.aperture_rotation"
    ∷ "dof.aperture_ratio" ∷ "show_passepartout" ∷ "passepartout_alpha" ∷ "show_background_images"
    ∷ "display_size" ∷ []
tracked scene =
    "name" ∷ "frame_start" ∷ "frame_end" ∷ "frame_step" ∷ "render.fps" ∷ "render.fps_base"
    ∷ "render.engine" ∷ "render.resolution_x" ∷ "render.resolution_y"
    ∷ "render.resolution_percentage" ∷ "render.pixel_aspect_x" ∷ "render.pixel_aspect_y"
    ∷ "render.film_transparent" ∷ "render.use_motion_blur" ∷ "render.motion_blur_shutter"
    ∷ "render.use_border" ∷ "render.use_crop_to_border" ∷ "render.border_min_x"
    ∷ "render.border_max_x" ∷ "render.border_min_y" ∷ "render.border_max_y" ∷ "render.filter_size"
    ∷ "render.use_simplify" ∷ "render.simplify_subdivision" ∷ "view_settings.view_transform"
    ∷ "view_settings.look" ∷ "view_settings.exposure" ∷ "view_settings.gamma"
    ∷ "display_settings.display_device" ∷ "display_settings.emulation"
    ∷ "view_settings.use_curve_mapping" ∷ "view_settings.use_white_balance"
    ∷ "view_settings.white_balance_temperature" ∷ "view_settings.white_balance_tint"
    ∷ "view_settings.use_hdr_view" ∷ "unit_settings.system" ∷ "unit_settings.scale_length"
    ∷ "unit_settings.length_unit" ∷ "unit_settings.system_rotation" ∷ "gravity" ∷ "use_gravity"
    ∷ "cycles.use_preview_denoising" ∷ "cycles.preview_samples" ∷ "cycles.samples"
    ∷ "cycles.use_denoising" ∷ "cycles.use_adaptive_sampling" ∷ "cycles.adaptive_threshold"
    ∷ "cycles.time_limit" ∷ "cycles.max_bounces" ∷ "cycles.film_exposure" ∷ "eevee.taa_samples"
    ∷ "eevee.taa_render_samples" ∷ "eevee.use_shadows" ∷ "eevee.use_raytracing"
    ∷ "eevee.use_volumetric_shadows" ∷ "rigidbody_world.enabled" ∷ "rigidbody_world.time_scale"
    ∷ "rigidbody_world.substeps_per_frame" ∷ "rigidbody_world.solver_iterations"
    ∷ "rigidbody_world.use_split_impulse" ∷ []
tracked material =
    "name" ∷ "blend_method" ∷ "surface_render_method" ∷ "use_backface_culling"
    ∷ "use_backface_culling_shadow" ∷ "use_transparent_shadow" ∷ "displacement_method"
    ∷ "diffuse_color" ∷ "metallic" ∷ "roughness" ∷ "specular_intensity" ∷ "pass_index" ∷ "use_nodes"
    ∷ []
tracked world = "name" ∷ "use_nodes" ∷ "color" ∷ []
tracked collection =
    "name" ∷ "hide_viewport" ∷ "hide_render" ∷ "hide_select" ∷ "instance_offset" ∷ "color_tag" ∷ []
tracked key = "name" ∷ []

-- No path twice.
unfoldable pub all_distinct : List String → Bool
unfolding has
all_distinct [] = true
all_distinct (p ∷ ps) = not (has ps p) && all_distinct ps

-- A path that ring0 writes with a dedicated setter or only compares.
unfoldable pub is_special : String → Bool
is_special p = starts_with p "~" || starts_with p "@"

-- For every type of datablock the table is a list of plain paths, none of them twice and none of
-- them spelled like a structure signature ("~") or a state behind a setter ("@").
pub tracked_plain :
    (k : TypeKey)
    → (all_distinct (tracked k) ≡ true) × (all (λ p. not (is_special p)) (tracked k) ≡ true)
unfolding tracked all_distinct is_special
tracked_plain object = (refl, refl)
tracked_plain light = (refl, refl)
tracked_plain camera = (refl, refl)
tracked_plain scene = (refl, refl)
tracked_plain material = (refl, refl)
tracked_plain world = (refl, refl)
tracked_plain collection = (refl, refl)
tracked_plain key = (refl, refl)
