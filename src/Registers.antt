-- ===== src/Registers.antt =====
-- The constants of registers.rs, without the `pcie` feature (a configuration space of 256 bytes).
use greens.Base.{ℕ, ◌*◌, ◌^◌}

abbrev pub pci_configuration_space_size : ℕ
pci_configuration_space_size = 256

abbrev pub pci_configuration_space_max_io_size : ℕ
pci_configuration_space_max_io_size = 4

abbrev pub pci_max_device_functions : ℕ
pci_max_device_functions = 7

abbrev pub pci_type0_num_bars : ℕ
pci_type0_num_bars = 6

abbrev pub pci_type1_num_bars : ℕ
pci_type1_num_bars = 2

abbrev pub num_bar_regs : ℕ
num_bar_regs = pci_type0_num_bars

abbrev pub pci_vendor_id : ℕ
pci_vendor_id = 0x0

abbrev pub pci_device_id : ℕ
pci_device_id = 0x2

abbrev pub pci_command : ℕ
pci_command = 0x4

abbrev pub pci_command_io_space_mask : ℕ
pci_command_io_space_mask = 2 ^ 0

abbrev pub pci_command_mem_space_mask : ℕ
pci_command_mem_space_mask = 2 ^ 1

abbrev pub pci_command_bus_master_mask : ℕ
pci_command_bus_master_mask = 2 ^ 2

abbrev pub pci_command_interrupt_disable_mask : ℕ
pci_command_interrupt_disable_mask = 2 ^ 10

abbrev pub pci_status : ℕ
pci_status = 0x6

abbrev pub pci_status_interrupt_status_mask : ℕ
pci_status_interrupt_status_mask = 2 ^ 3

abbrev pub pci_status_cap_list_mask : ℕ
pci_status_cap_list_mask = 2 ^ 4

abbrev pub pci_revision_id : ℕ
pci_revision_id = 0x8

abbrev pub pci_class_code_pi : ℕ
pci_class_code_pi = 0x9

abbrev pub pci_class_code_sub : ℕ
pci_class_code_sub = 0xA

abbrev pub pci_class_code_base : ℕ
pci_class_code_base = 0xB

abbrev pub pci_cache_line_size : ℕ
pci_cache_line_size = 0xC

abbrev pub pci_header_type : ℕ
pci_header_type = 0xE

abbrev pub pci_header_type_multifunction : ℕ
pci_header_type_multifunction = 2 ^ 7

abbrev pub pci_bar0 : ℕ
pci_bar0 = 0x10

abbrev pub pci_bar_io_min_size : ℕ
pci_bar_io_min_size = 16

abbrev pub pci_bar_io_max_size : ℕ
pci_bar_io_max_size = 256

abbrev pub pci_bar_io_indicator_mask : ℕ
pci_bar_io_indicator_mask = 0x01

abbrev pub pci_bar_io_base_address_mask : ℕ
pci_bar_io_base_address_mask = 0xFFFF_FFFC

abbrev pub pci_bar_mem_min_size : ℕ
pci_bar_mem_min_size = 128

abbrev pub pci_bar_mem_32_max_size : ℕ
pci_bar_mem_32_max_size = 2 * 2 ^ 30

abbrev pub pci_bar_mem_64_max_size : ℕ
pci_bar_mem_64_max_size = 256 * 2 ^ 30

abbrev pub pci_bar_mem_32_base_address_mask : ℕ
pci_bar_mem_32_base_address_mask = 0xFFFF_FFF0

abbrev pub pci_bar_mem_32_indicator_mask : ℕ
pci_bar_mem_32_indicator_mask = 0x00

abbrev pub pci_bar_mem_64_indicator_mask : ℕ
pci_bar_mem_64_indicator_mask = 0x04

abbrev pub pci_bar_mem_prefetchable_mask : ℕ
pci_bar_mem_prefetchable_mask = 0x08

abbrev pub pci_subsystem_vendor_id : ℕ
pci_subsystem_vendor_id = 0x2C

abbrev pub pci_subsystem_id : ℕ
pci_subsystem_id = 0x2E

abbrev pub pci_cap_pointer : ℕ
pci_cap_pointer = 0x34

abbrev pub pci_cap_pointer_rsvd_mask : ℕ
pci_cap_pointer_rsvd_mask = 0x3

abbrev pub pci_cap_header_id : ℕ
pci_cap_header_id = 0x0

abbrev pub pci_cap_header_next : ℕ
pci_cap_header_next = 0x1

abbrev pub pci_cap_data_start : ℕ
pci_cap_data_start = 0x2

abbrev pub pci_interrupt_line : ℕ
pci_interrupt_line = 0x3C

abbrev pub pci_interrupt_pin : ℕ
pci_interrupt_pin = 0x3D

abbrev pub pci_device_specific_start : ℕ
pci_device_specific_start = 0x40

abbrev pub pci_device_specific_end : ℕ
pci_device_specific_end = 0xFF
