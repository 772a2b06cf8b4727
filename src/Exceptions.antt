-- ===== src/Exceptions.antt =====
-- mcvirt/exceptions.py: the exceptions that the modelled code raises, each named as its class
-- there, and those that the Python interpreter raises itself.

pub data Exception : Type 0 where
  -- of the interpreter
  key_error attribute_error index_error value_error assertion_error : Exception
  -- authentication and permissions
  authentication_error current_user_error user_does_not_exist : Exception
  insufficient_permissions duplicate_permission user_not_present_in_group : Exception
  invalid_permission group_already_contains_permission group_does_not_contain_permission : Exception
  group_in_use group_already_exists group_does_not_exist : Exception
  invalid_user_type blank_password invalid_username user_already_exists : Exception
  incorrect_credentials user_already_has_permission user_does_not_have_permission : Exception
  -- arguments and sizes
  mcvirt_type_error size_must_be_multiple_of_512 invalid_size_suffix : Exception
  invalid_size_format size_not_integer_bytes : Exception
  -- tasks
  task_cancelled task_scheduler_conflict inaccessible_node : Exception
  -- virtual machines
  vm_already_stopped vm_already_started vm_registered_elsewhere vm_not_registered : Exception
  vm_already_registered cannot_start_cloned_vm cannot_delete_cloned_vm : Exception
  virtual_machine_lock libvirt_error delete_protection_enabled : Exception
  delete_protection_already_enabled delete_protection_not_enabled : Exception
  invalid_confirmation_code attribute_already_changed unsuitable_node : Exception
  invalid_modification_flag vm_is_running vm_is_stopped : Exception
  -- hard drives and DRBD
  mcvirt_command drbd_state drbd_volume_not_in_sync drbd_block_device_does_not_exist : Exception
  drbd_not_enabled_on_node invalid_nodes too_many_parameters argument_parser : Exception
  insufficient_space inconsistent_volume_size hard_drive_does_not_exist : Exception
  invalid_storage_backend resync_not_supported cluster_not_initialised : Exception
  -- storage backends and volumes
  type_error storage_backend_in_use storage_backend_not_available_on_node : Exception
  storage_backend_does_not_exist storage_backend_already_exists unknown_storage_type : Exception
  invalid_storage_configuration node_already_configured node_not_configured : Exception
  node_used_by_static_virtual_machine no_configuration_change : Exception
  cannot_unshare_in_use volume_does_not_exist volume_already_exists : Exception
  volume_is_not_active external_storage_command dd_command os_error : Exception
  not_implemented node_does_not_exist migration_failure : Exception
  not_registered_with_libvirt : Exception
